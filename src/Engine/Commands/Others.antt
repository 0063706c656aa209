-- ===== src/Engine/Commands/Others.antt =====
-- src/parser/engine.rs: `execute` and the other connections' transactions.
use kssql.Common.{
  ℕ, zero, suc, ◌⊎◌, refl, Bool-cases, none, some, Option-cases, List, [], ◌∷◌, Bytes, inl, inr,
}
use kssql.Common.Result.{Result-cases}
use kssql.Common.Exec.{Exec, pure, gets, ◌>>=◌}
use kssql.Common.Str.{Text}
use kssql.Storage.Codec.{Codec}
use kssql.Storage.Btree.Node.{Record}
use kssql.Engine.State.{Engine, World, wal_flush}
use kssql.Engine.Transactions.{begin, commit, rollback}
use kssql.Engine.Insert.{handle_insert}
use kssql.Engine.Statements.{handle_update, handle_delete}
use kssql.Engine.Output.{Floats}
use kssql.Engine.Call.{Host, outside}
use kssql.Engine.Search.{flush_command, join_lines}
use kssql.Engine.Execute.{
  Statement, create_index, create_table_statement, explain, insert_statement, query_statement,
  update_statement, delete_statement, other_statement, Parsed, or_source_missing,
  or_unsupported_target, is_conflict, retry, run_statement, called_path, execute_statement,
  run_statements,
}
use kssql.Engine.Commands.{
  Command, flush, search, begin_transaction, commit_open, rollback_open, sql_text, started_text,
  committed_text, rolled_back_text, command_of, execute_text, run_command, execute,
}
use kssql.Engine.Isolated.{
  KeepsOthers, Isolated, KeepsOthers-refl, KeepsOthers-trans, KeepsOthers->>=, same_KeepsOthers,
  begin-Isolated, commit-Isolated, rollback-Isolated,
}
use kssql.Engine.Isolated.Rows.{handle_insert-Isolated}
use kssql.Engine.Isolated.Statements.{
  handle_update-Isolated, handle_delete-Isolated, create_table-Isolated,
}
use kssql.Engine.Isolated.Queries.{
  handle_query-Isolated, create_index_on-Isolated, call_path-Isolated,
}

module _ (world : World) (conn_id : ℕ) where
  open world use {store}

  retry-Isolated :
      {A : Type 0} (n : ℕ) (attempt : Exec (Engine store) A)
      → Isolated world conn_id attempt
      → Isolated world conn_id (retry n attempt)
  unfolding retry
  retry-Isolated zero attempt keeps s = keeps s
  retry-Isolated (suc n) attempt keeps s = elim (Result-cases (attempt s).0) [
    | inl (a, fine) ↦ rw (retry, fine) (keeps s)
    | inr (e, failed) ↦ elim (Bool-cases (is_conflict e)) [
      | inl again ↦
          rw (retry, failed, again)
            (KeepsOthers-trans world conn_id s (attempt s).1 _ (keeps s)
              (retry-Isolated n attempt keeps (attempt s).1))
      | inr final ↦ rw (retry, failed, final) (keeps s)
    ]
  ]

  module _ (floats : Floats) (records : Codec Record) where
    run_statement-Isolated :
        (statement : Statement)
        → Isolated world conn_id (run_statement floats world records statement conn_id)
    unfolding run_statement
    run_statement-Isolated (create_index name table_name column) s =
        create_index_on-Isolated world conn_id records floats name table_name column s
    run_statement-Isolated (create_table_statement name columns) s =
        create_table-Isolated world conn_id records name columns s
    run_statement-Isolated (explain text) s = KeepsOthers-refl world conn_id s
    run_statement-Isolated (insert_statement table_name source) s =
        KeepsOthers->>= world conn_id (gets (λ t. or_source_missing floats world records source))
          (λ from. handle_insert world records table_name from conn_id) s
          (KeepsOthers-refl world conn_id s)
          (λ from t. handle_insert-Isolated world conn_id records table_name from t)
    run_statement-Isolated (query_statement none) s = KeepsOthers-refl world conn_id s
    run_statement-Isolated (query_statement (some select)) s =
        handle_query-Isolated world conn_id records floats select s
    run_statement-Isolated (update_statement table_name assignments selection) s =
        KeepsOthers->>= world conn_id
          (gets (λ t. or_unsupported_target floats world records table_name))
          (λ name. handle_update world records name assignments selection conn_id) s
          (KeepsOthers-refl world conn_id s)
          (λ name t. handle_update-Isolated world conn_id records name assignments selection t)
    run_statement-Isolated (delete_statement table_name selection) s =
        KeepsOthers->>= world conn_id
          (gets (λ t. or_unsupported_target floats world records table_name))
          (λ name. handle_delete world records name selection conn_id) s
          (KeepsOthers-refl world conn_id s)
          (λ name t. handle_delete-Isolated world conn_id records name selection t)
    run_statement-Isolated other_statement s = KeepsOthers-refl world conn_id s

    module _ (host : Host) where
      execute_statement-Isolated :
          (stmt : Parsed)
          → Isolated world conn_id (execute_statement host floats world records stmt conn_id)
      unfolding execute_statement
      execute_statement-Isolated stmt s = elim (Option-cases (called_path stmt.printed)) [
        | inl no_call ↦ rw (execute_statement, no_call) (run_statement-Isolated stmt.statement s)
        | inr (part, calls) ↦
            rw (execute_statement, calls) (call_path-Isolated world conn_id records host part s)
      ]

      run_statements-Isolated :
          (statements : List Parsed)
          → Isolated world conn_id (run_statements host floats world records statements conn_id)
      unfolding run_statements
      run_statements-Isolated [] s = KeepsOthers-refl world conn_id s
      run_statements-Isolated (statement ∷ rest) s =
          let others = λ (res : Bytes).
            run_statements host floats world records rest conn_id >>= λ results.
            pure (res ∷ results) in
          KeepsOthers->>= world conn_id
            (retry 5 (execute_statement host floats world records statement conn_id)) others s
            (retry-Isolated 5 (execute_statement host floats world records statement conn_id)
              (execute_statement-Isolated statement) s)
            (λ res t.
              KeepsOthers->>= world conn_id (run_statements host floats world records rest conn_id)
                (λ results. pure (res ∷ results)) t (run_statements-Isolated rest t)
                (λ results u. KeepsOthers-refl world conn_id u))

      module _ (parse_sql : Text → Bytes ⊎ List Parsed) where
        execute_text-Isolated :
            (sql : Text)
            → Isolated world conn_id (execute_text host parse_sql floats world records sql conn_id)
        unfolding execute_text
        execute_text-Isolated sql s =
            let answer : List Bytes → Exec (Engine store) Bytes =
              λ results. pure (join_lines results) in
            KeepsOthers->>= world conn_id (gets (λ t. outside (parse_sql sql)))
              (λ ast. run_statements host floats world records ast conn_id >>= answer) s
              (KeepsOthers-refl world conn_id s)
              (λ ast t.
                KeepsOthers->>= world conn_id (run_statements host floats world records ast conn_id)
                  answer t (run_statements-Isolated ast t)
                  (λ results u. KeepsOthers-refl world conn_id u))

        run_command-Isolated :
            (command : Command) (sql : Text)
            → Isolated world conn_id
                (run_command host parse_sql floats world records command sql conn_id)
        unfolding run_command flush_command wal_flush
        run_command-Isolated flush sql s = same_KeepsOthers world conn_id s _ refl
        run_command-Isolated search sql s = KeepsOthers-refl world conn_id s
        run_command-Isolated begin_transaction sql s =
            KeepsOthers->>= world conn_id (begin world records conn_id) (λ _. pure started_text) s
              (begin-Isolated world conn_id records s) (λ _ t. KeepsOthers-refl world conn_id t)
        run_command-Isolated commit_open sql s =
            KeepsOthers->>= world conn_id (commit world records conn_id) (λ _. pure committed_text)
              s (commit-Isolated world conn_id records s) (λ _ t. KeepsOthers-refl world conn_id t)
        run_command-Isolated rollback_open sql s =
            KeepsOthers->>= world conn_id (rollback world records conn_id)
              (λ _. pure rolled_back_text) s (rollback-Isolated world conn_id records s)
              (λ _ t. KeepsOthers-refl world conn_id t)
        run_command-Isolated sql_text sql s = execute_text-Isolated sql s

        -- Whatever text a connection has executed, whether it succeeds or fails, the open transactions of
        -- all other connections are as before.
        pub execute-Isolated :
            (sql : Text) (s : Engine store)
            → KeepsOthers world conn_id s
                (execute host parse_sql floats world records sql conn_id s).1
        unfolding execute
        execute-Isolated sql s = run_command-Isolated (command_of sql) sql s
