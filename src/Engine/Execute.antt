-- ===== src/Engine/Execute.antt =====
-- src/parser/engine.rs: `execute` after the transaction commands, with its retries, and
-- `execute_statement`. The statements are those that sqlparser read.
pub mod Retry
use kssql.Common.{
  ℕ, zero, suc, Bool, true, false, Option, none, some, List, [], ◌∷◌, ◌++◌, Bytes, bytes_equality,
  if◌then◌else◌,
}
use kssql.Common.Dict
use kssql.Common.Dict.{Dict}
use kssql.Common.Result.{
  Result, Error, ok, err, transaction_conflict, named_table_not_found, unsupported_statement,
  unsupported_query, unsupported_target, source_missing, external_error,
}
use kssql.Common.Exec.{Exec, pure, gets, raise, ◌>>=◌, ◌>>◌}
use kssql.Storage.Codec.{Codec}
use kssql.Storage.Btree.Node.{Record}
use kssql.Storage.Wal.Frame.{record_update}
use kssql.Engine.State.{TableSchema, IndexSchema, Engine, World, tier_insert, wal_enqueue}
use kssql.Common.Str.{Text, split_whitespace}
use kssql.Common.Text.{starts_with}
use kssql.Engine.Tables.{Column, create_table}
use kssql.Engine.Call.{Host, call_path}
use kssql.Engine.Filter.{Expr}
use kssql.Engine.Rows.{Row, key_column}
use kssql.Engine.Scan.{index_entry, scan_table}
use kssql.Engine.Statements.{handle_update, handle_delete}
use kssql.Engine.Insert.{Source, handle_insert}
use kssql.Engine.Output.{Floats}
use kssql.Engine.Query.{Select, contains_text, handle_query}

-- The statements that are told apart. An index has the name that is given or none, and
-- its first column; a table has its columns; EXPLAIN has the statement as it is printed; a
-- query that is no SELECT is none; UPDATE and DELETE have their table, if it is one.
pub data Statement : Type 0 where
  create_index : Option Bytes → Bytes → Bytes → Statement
  create_table_statement : Bytes → List Column → Statement
  explain : Bytes → Statement
  insert_statement : Bytes → Option Source → Statement
  query_statement : Option Select → Statement
  update_statement : Option Bytes → List (Bytes × Bytes) → Option Expr → Statement
  delete_statement : Option Bytes → Option Expr → Statement
  other_statement : Statement

-- A statement as it is printed, with what it is.
pub record Parsed : Type 0 where
  pub printed : Text
  pub statement : Statement

-- "unnamed_idx"
abbrev pub index_name : Option Bytes → Bytes
index_name none = 117 ∷ 110 ∷ 110 ∷ 97 ∷ 109 ∷ 101 ∷ 100 ∷ 95 ∷ 105 ∷ 100 ∷ 120 ∷ []
index_name (some name) = name

-- "Index created"
abbrev pub index_created : Bytes
index_created = 73 ∷ 110 ∷ 100 ∷ 101 ∷ 120 ∷ 32 ∷ 99 ∷ 114 ∷ 101 ∷ 97 ∷ 116 ∷ 101 ∷ 100 ∷ []

-- What EXPLAIN puts in front: "Execution Plan (Titan-Prime)" and the lines up to "- Statement: ".
abbrev pub plan_text : Bytes
plan_text =
    69 ∷ 120 ∷ 101 ∷ 99 ∷ 117 ∷ 116 ∷ 105 ∷ 111 ∷ 110 ∷ 32 ∷ 80 ∷ 108 ∷ 97 ∷ 110 ∷ 32 ∷ 40 ∷ 84
    ∷ 105 ∷ 116 ∷ 97 ∷ 110 ∷ 45 ∷ 80 ∷ 114 ∷ 105 ∷ 109 ∷ 101 ∷ 41 ∷ 58 ∷ 10 ∷ 45 ∷ 32 ∷ 105 ∷ 111
    ∷ 95 ∷ 117 ∷ 114 ∷ 105 ∷ 110 ∷ 103 ∷ 32 ∷ 73 ∷ 47 ∷ 79 ∷ 10 ∷ 45 ∷ 32 ∷ 79 ∷ 95 ∷ 68 ∷ 73 ∷ 82
    ∷ 69 ∷ 67 ∷ 84 ∷ 32 ∷ 68 ∷ 77 ∷ 65 ∷ 10 ∷ 45 ∷ 32 ∷ 76 ∷ 111 ∷ 99 ∷ 107 ∷ 45 ∷ 70 ∷ 114 ∷ 101
    ∷ 101 ∷ 32 ∷ 65 ∷ 114 ∷ 114 ∷ 97 ∷ 121 ∷ 81 ∷ 117 ∷ 101 ∷ 117 ∷ 101 ∷ 10 ∷ 45 ∷ 32 ∷ 80 ∷ 105
    ∷ 110 ∷ 103 ∷ 45 ∷ 80 ∷ 111 ∷ 110 ∷ 103 ∷ 32 ∷ 68 ∷ 111 ∷ 117 ∷ 98 ∷ 108 ∷ 101 ∷ 32 ∷ 66 ∷ 117
    ∷ 102 ∷ 102 ∷ 101 ∷ 114 ∷ 105 ∷ 110 ∷ 103 ∷ 10 ∷ 45 ∷ 32 ∷ 83 ∷ 116 ∷ 97 ∷ 116 ∷ 101 ∷ 109 ∷ 101
    ∷ 110 ∷ 116 ∷ 58 ∷ 32 ∷ []

-- `e.to_string().contains("conflict")`: of the messages, only that of a conflict does, that of a
-- missing table whose name does, and one from outside that does.
abbrev pub is_conflict : Error → Bool
is_conflict transaction_conflict = true
is_conflict (external_error message) =
    contains_text (99 ∷ 111 ∷ 110 ∷ 102 ∷ 108 ∷ 105 ∷ 99 ∷ 116 ∷ []) message
is_conflict (named_table_not_found name) =
    contains_text (99 ∷ 111 ∷ 110 ∷ 102 ∷ 108 ∷ 105 ∷ 99 ∷ 116 ∷ []) name
is_conflict _ = false

module _ {S A : Type 0} where
  -- The loop around a statement, with so many retries left; the sleep between them is left out.
  unfoldable pub retry : ℕ → Exec S A → Exec S A
  retry zero attempt s = attempt s
  retry (suc n) attempt s =
      let (r, s') = attempt s in
      elim r [
        | ok a ↦ (ok a, s')
        | err e ↦ let again = retry n attempt s' in if is_conflict e then again else (err e, s')
      ]

module _ (floats : Floats) (world : World) (records : Codec Record) where
  open world use {store}

  abbrev pub add_entry :
      Bytes → Bytes → Option Bytes → Option Bytes → Exec (Engine store) (Unit {0})
  add_entry table_name column none key = pure tt
  add_entry table_name column (some v) none = pure tt
  add_entry table_name column (some v) (some key) = do
    (λ s. (ok tt, tier_insert world (index_entry table_name column v) key s))
    wal_enqueue world (record_update (index_entry table_name column v) key)

  -- The rows that are there when an index is made.
  unfoldable pub build_index : Bytes → Bytes → List Row → Exec (Engine store) (Unit {0})
  unfolding tier_insert wal_enqueue
  build_index table_name column [] = pure tt
  build_index table_name column (row ∷ rows) = do
    add_entry table_name column (Dict.get row column) (Dict.get row key_column)
    build_index table_name column rows

  unfoldable pub create_index_on : Option Bytes → Bytes → Bytes → Exec (Engine store) Bytes
  unfolding build_index scan_table
  create_index_on name table_name column = do
    (λ s. (
      ok tt,
      record s {
        indices =
            Dict.insert s.indices (index_name name)
              (record { name = index_name name; table_name = table_name; column = column });
      },
    ))
    version ← gets (λ s. ok s.current_version)
    rows ← scan_table world records table_name version
    build_index table_name column rows
    pure index_created

  abbrev pub or_unsupported_target : Option Bytes → Result Bytes
  or_unsupported_target none = err unsupported_target
  or_unsupported_target (some name) = ok name

  abbrev pub or_source_missing : Option Source → Result Source
  or_source_missing none = err source_missing
  or_source_missing (some source) = ok source

  -- the branches of `match stmt`
  unfoldable pub run_statement : Statement → ℕ → Exec (Engine store) Bytes
  unfolding create_index_on create_table handle_insert handle_query handle_update handle_delete
  run_statement (create_index name table_name column) conn_id =
      create_index_on name table_name column
  run_statement (create_table_statement name columns) conn_id =
      create_table world records name columns
  run_statement (explain text) conn_id = pure (plan_text ++ text)
  run_statement (insert_statement table_name source) conn_id = do
    from ← gets (λ s. or_source_missing source)
    handle_insert world records table_name from conn_id
  run_statement (query_statement none) conn_id = raise unsupported_query
  run_statement (query_statement (some select)) conn_id =
      handle_query floats world records select conn_id
  run_statement (update_statement table_name assignments selection) conn_id = do
    name ← gets (λ s. or_unsupported_target table_name)
    handle_update world records name assignments selection conn_id
  run_statement (delete_statement table_name selection) conn_id = do
    name ← gets (λ s. or_unsupported_target table_name)
    handle_delete world records name selection conn_id
  run_statement other_statement conn_id = raise unsupported_statement

-- "CALL"
abbrev pub call_word : Text
call_word = 67 ∷ 65 ∷ 76 ∷ 76 ∷ []

-- `parts[1]`, if there is one
abbrev pub second_of : List Text → Option Text
second_of [] = none
second_of (word ∷ []) = none
second_of (word ∷ part ∷ parts) = some part

-- The path of a CALL.
unfoldable pub called_path : Text → Option Text
unfolding split_whitespace
called_path printed =
    if starts_with call_word printed then second_of (split_whitespace printed) else none

module _ (host : Host) (floats : Floats) (world : World) (records : Codec Record) where
  open world use {store}

  unfoldable pub execute_statement : Parsed → ℕ → Exec (Engine store) Bytes
  unfolding call_path called_path run_statement
  execute_statement stmt conn_id = elim (called_path stmt.printed) [
    | some part ↦ call_path host part
    | none ↦ run_statement floats world records stmt.statement conn_id
  ]

  -- The statements of a text one after the other; the first that fails ends the text.
  unfoldable pub run_statements : List Parsed → ℕ → Exec (Engine store) (List Bytes)
  unfolding execute_statement retry
  run_statements [] conn_id = pure []
  run_statements (statement ∷ rest) conn_id = do
    res ← retry 5 (execute_statement statement conn_id)
    results ← run_statements rest conn_id
    pure (res ∷ results)
