-- ===== src/Engine/Commands.antt =====
-- src/parser/engine.rs: `execute`, from the text that a client sent to the answer.
pub mod Others
use kssql.Common.{
  ℕ, ◌+◌, Bool, true, false, ◌||◌, List, [], ◌∷◌, Bytes, bytes_eq, ◌⊎◌, if◌then◌else◌,
}
use kssql.Common.Exec.{Exec, pure, gets, ◌>>=◌, ◌>>◌}
use kssql.Common.Result.{ok}
use kssql.Common.Str.{Text, trim, trim_start_matches, without, to_uppercase, as_bytes}
use kssql.Common.Text.{starts_with}
use kssql.Storage.Codec.{Codec}
use kssql.Storage.Btree.Node.{Record}
use kssql.Engine.State.{Engine, World}
use kssql.Engine.Transactions.{begin, commit, rollback}
use kssql.Engine.Search.{universal_search, flush_command, join_lines}
use kssql.Engine.Output.{Floats}
use kssql.Engine.Call.{Host, outside}
use kssql.Engine.Execute.{Parsed, run_statements}

-- What a text of SQL is, by its beginning.
pub data Command : Type 0 where
  flush search begin_transaction commit_open rollback_open sql_text : Command

-- "FLUSH", "SEARCH", "BEGIN", " TRANSACTION", "COMMIT" and "ROLLBACK"
abbrev pub flush_word : Text
flush_word = 70 ∷ 76 ∷ 85 ∷ 83 ∷ 72 ∷ []

abbrev pub search_word : Text
search_word = 83 ∷ 69 ∷ 65 ∷ 82 ∷ 67 ∷ 72 ∷ []

abbrev pub begin_word : Text
begin_word = 66 ∷ 69 ∷ 71 ∷ 73 ∷ 78 ∷ []

abbrev pub begin_transaction_words : Text
begin_transaction_words =
    66 ∷ 69 ∷ 71 ∷ 73 ∷ 78 ∷ 32 ∷ 84 ∷ 82 ∷ 65 ∷ 78 ∷ 83 ∷ 65 ∷ 67 ∷ 84 ∷ 73 ∷ 79 ∷ 78 ∷ []

abbrev pub commit_word : Text
commit_word = 67 ∷ 79 ∷ 77 ∷ 77 ∷ 73 ∷ 84 ∷ []

abbrev pub rollback_word : Text
rollback_word = 82 ∷ 79 ∷ 76 ∷ 76 ∷ 66 ∷ 65 ∷ 67 ∷ 75 ∷ []

-- the tests of `execute`, on the text in upper case
abbrev pub command_in : Text → Command
command_in sql_upper =
    if bytes_eq sql_upper flush_word
    then flush
    else (if starts_with search_word sql_upper
        then search
        else (if bytes_eq sql_upper begin_word || bytes_eq sql_upper begin_transaction_words
            then begin_transaction
            else (if bytes_eq sql_upper commit_word
                then commit_open
                else (if bytes_eq sql_upper rollback_word then rollback_open else sql_text))))

unfoldable pub command_of : Text → Command
unfolding trim to_uppercase
command_of sql = command_in (to_uppercase (trim sql))

-- What a SEARCH looks for: the word is taken off where it stands in upper case at the very start.
unfoldable pub search_query : Text → Text
unfolding trim trim_start_matches
search_query sql = without 39 (trim (trim_start_matches search_word sql))

-- "Flushed", "Transaction started", "Transaction committed" and "Transaction rolled back"
abbrev pub flushed_text : Bytes
flushed_text = 70 ∷ 108 ∷ 117 ∷ 115 ∷ 104 ∷ 101 ∷ 100 ∷ []

abbrev pub started_text : Bytes
started_text =
    84 ∷ 114 ∷ 97 ∷ 110 ∷ 115 ∷ 97 ∷ 99 ∷ 116 ∷ 105 ∷ 111 ∷ 110 ∷ 32 ∷ 115 ∷ 116 ∷ 97 ∷ 114 ∷ 116
    ∷ 101 ∷ 100 ∷ []

abbrev pub committed_text : Bytes
committed_text =
    84 ∷ 114 ∷ 97 ∷ 110 ∷ 115 ∷ 97 ∷ 99 ∷ 116 ∷ 105 ∷ 111 ∷ 110 ∷ 32 ∷ 99 ∷ 111 ∷ 109 ∷ 109 ∷ 105
    ∷ 116 ∷ 116 ∷ 101 ∷ 100 ∷ []

abbrev pub rolled_back_text : Bytes
rolled_back_text =
    84 ∷ 114 ∷ 97 ∷ 110 ∷ 115 ∷ 97 ∷ 99 ∷ 116 ∷ 105 ∷ 111 ∷ 110 ∷ 32 ∷ 114 ∷ 111 ∷ 108 ∷ 108 ∷ 101
    ∷ 100 ∷ 32 ∷ 98 ∷ 97 ∷ 99 ∷ 107 ∷ []

-- `parse_sql` is sqlparser: the statements of a text, or its message.
module _ (host : Host) (parse_sql : Text → Bytes ⊎ List Parsed) (floats : Floats) (world : World)
    (records : Codec Record) where
  open world use {store, depth, chain}

  -- A text that is none of the commands is parsed, and its statements are run.
  unfoldable pub execute_text : Text → ℕ → Exec (Engine store) Bytes
  unfolding run_statements
  execute_text sql conn_id = do
    ast ← gets (λ s. outside (parse_sql sql))
    results ← run_statements host floats world records ast conn_id
    pure (join_lines results)

  -- A search visits the pages on the way down and those of the leaves.
  unfoldable pub run_command : Command → Text → ℕ → Exec (Engine store) Bytes
  unfolding flush_command universal_search search_query begin commit rollback execute_text as_bytes
  run_command flush sql conn_id engine = (ok flushed_text, flush_command world engine)
  run_command search sql conn_id engine =
      (universal_search world records (as_bytes (search_query sql)) (depth + chain) engine, engine)
  run_command begin_transaction sql conn_id engine =
      (begin world records conn_id >> pure started_text) engine
  run_command commit_open sql conn_id engine =
      (commit world records conn_id >> pure committed_text) engine
  run_command rollback_open sql conn_id engine =
      (rollback world records conn_id >> pure rolled_back_text) engine
  run_command sql_text sql conn_id engine = execute_text sql conn_id engine

  unfoldable pub execute : Text → ℕ → Exec (Engine store) Bytes
  unfolding command_of run_command
  execute sql conn_id = run_command (command_of sql) sql conn_id
