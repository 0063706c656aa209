-- ===== src/Engine/Isolated/Queries.antt =====
-- src/parser/engine.rs: SELECT, CREATE INDEX and CALL, and the other connections' transactions.
use kssql.Common.{ℕ, refl, Option, none, some, List, [], ◌∷◌, ◌++◌, Bytes, arith, bytes_equality}
use kssql.Common.Dict
use kssql.Common.Result.{unsupported_join_table}
use kssql.Common.Exec.{Exec, pure, gets, ◌>>=◌}
use kssql.Common.Str.{Text}
use kssql.Storage.Codec.{Codec}
use kssql.Storage.Btree.Node.{Record}
use kssql.Engine.State.{TableSchema, Engine, World}
use kssql.Engine.Rows.{Row, key_column}
use kssql.Engine.Scan.{scan_table, scan_table_with_filter, index_entry}
use kssql.Engine.Statements.{read_version}
use kssql.Engine.Statements.Reads.{scan-IsUntouched}
use kssql.Engine.Output.{Floats}
use kssql.Engine.Query.{
  Select, Join, or_unsupported, first_relation, schema_of, columns_of, with_join, join_rows,
  finish_query, handle_query,
}
use kssql.Engine.Execute.{add_entry, build_index, create_index_on, index_name, index_created}
use kssql.Engine.Call.{Host, call_wasm, call_path}
use kssql.Engine.Isolated.{
  Isolated, KeepsOthers-refl, KeepsOthers-trans, KeepsOthers->>=, same_KeepsOthers,
  untouched_KeepsOthers, store_entry,
}
use kssql.Engine.Isolated.Statements.{scan_table-Isolated}

module _ (world : World) (conn_id : ℕ) (records : Codec Record) where
  open world use {store}

  module _ (floats : Floats) where
    with_join-Isolated :
        (version : ℕ) (join : Option Join) (columns : List Bytes) (rows : List Row)
        → Isolated world conn_id (with_join floats world records version join columns rows)
    with_join-Isolated version none columns rows s = KeepsOthers-refl world conn_id s
    with_join-Isolated version (some join) columns rows s =
        let show : Bytes → TableSchema → List Row → Exec (Engine store) (List Bytes × List Row) =
          λ right_table right_schema right_rows. pure (
            columns ++ columns_of floats world records right_table right_schema,
            join_rows join.on rows right_rows,
          ) in
        let scan : Bytes → TableSchema → Exec (Engine store) (List Bytes × List Row) =
          λ right_table right_schema.
            scan_table world records right_table version >>= show right_table right_schema in
        let look_up : Bytes → Exec (Engine store) (List Bytes × List Row) =
          λ right_table. gets (schema_of floats world records right_table) >>= scan right_table in
        KeepsOthers->>= world conn_id
          (gets (λ t. or_unsupported floats world records unsupported_join_table join.relation))
          look_up s (KeepsOthers-refl world conn_id s)
          (λ right_table t.
            KeepsOthers->>= world conn_id (gets (schema_of floats world records right_table))
              (scan right_table) t (KeepsOthers-refl world conn_id t)
              (λ right_schema u.
                KeepsOthers->>= world conn_id (scan_table world records right_table version)
                  (show right_table right_schema) u
                  (scan_table-Isolated world conn_id records right_table version u)
                  (λ right_rows v. KeepsOthers-refl world conn_id v)))

    pub handle_query-Isolated :
        (select : Select)
        → Isolated world conn_id (handle_query floats world records select conn_id)
    unfolding handle_query
    handle_query-Isolated select s =
        let version = read_version world records conn_id s in
        let show : List Bytes × List Row → Exec (Engine store) Bytes =
          λ joined. pure (finish_query floats select joined) in
        let join : Bytes → TableSchema → List Row → Exec (Engine store) Bytes =
          λ table_name schema rows.
            with_join floats world records version select.join
              (columns_of floats world records table_name schema) rows
            >>= show in
        let scan : Bytes → TableSchema → Exec (Engine store) Bytes = λ table_name schema.
          scan_table_with_filter world records table_name version select.selection
          >>= join table_name schema in
        let look_up : Bytes → Exec (Engine store) Bytes =
          λ table_name. gets (schema_of floats world records table_name) >>= scan table_name in
        KeepsOthers->>= world conn_id (gets (λ t. first_relation floats world records select.from))
          look_up s (KeepsOthers-refl world conn_id s)
          (λ table_name t.
            KeepsOthers->>= world conn_id (gets (schema_of floats world records table_name))
              (scan table_name) t (KeepsOthers-refl world conn_id t)
              (λ schema u.
                KeepsOthers->>= world conn_id
                  (scan_table_with_filter world records table_name version select.selection)
                  (join table_name schema) u
                  (untouched_KeepsOthers world conn_id u _
                    (scan-IsUntouched world records table_name version select.selection u))
                  (λ rows v.
                    KeepsOthers->>= world conn_id
                      (with_join floats world records version select.join
                        (columns_of floats world records table_name schema) rows)
                      show v (with_join-Isolated version select.join _ rows v)
                      (λ joined w. KeepsOthers-refl world conn_id w))))

  add_entry-Isolated :
      (floats : Floats) (table_name column : Bytes) (v key : Option Bytes)
      → Isolated world conn_id (add_entry floats world records table_name column v key)
  add_entry-Isolated floats table_name column none key s = KeepsOthers-refl world conn_id s
  add_entry-Isolated floats table_name column (some v) none s = KeepsOthers-refl world conn_id s
  add_entry-Isolated floats table_name column (some v) (some key) s =
      store_entry world conn_id (index_entry table_name column v) key s

  build_index-Isolated :
      (floats : Floats) (table_name column : Bytes) (rows : List Row)
      → Isolated world conn_id (build_index floats world records table_name column rows)
  unfolding build_index
  build_index-Isolated floats table_name column [] s = KeepsOthers-refl world conn_id s
  build_index-Isolated floats table_name column (row ∷ rows) s =
      KeepsOthers->>= world conn_id
        (add_entry floats world records table_name column (Dict.get row column)
          (Dict.get row key_column))
        (λ _. build_index floats world records table_name column rows) s
        (add_entry-Isolated floats table_name column (Dict.get row column) (Dict.get row key_column)
          s)
        (λ _ t. build_index-Isolated floats table_name column rows t)

  pub create_index_on-Isolated :
      (floats : Floats) (name : Option Bytes) (table_name column : Bytes)
      → Isolated world conn_id (create_index_on floats world records name table_name column)
  unfolding create_index_on
  create_index_on-Isolated floats name table_name column s =
      let t = record s {
        indices =
            Dict.insert s.indices (index_name name)
              (record { name = index_name name; table_name = table_name; column = column });
      } in
      let finish = λ (_ : Unit {0}). pure {S = Engine store} index_created in
      KeepsOthers-trans world conn_id s t _ (same_KeepsOthers world conn_id s t refl) (
        KeepsOthers->>= world conn_id (scan_table world records table_name t.current_version)
          (λ rows. build_index floats world records table_name column rows >>= finish) t
          (scan_table-Isolated world conn_id records table_name t.current_version t)
          (λ rows u.
            KeepsOthers->>= world conn_id (build_index floats world records table_name column rows)
              finish u (build_index-Isolated floats table_name column rows u)
              (λ _ v. KeepsOthers-refl world conn_id v)))

  pub call_path-Isolated :
      (host : Host) (part : Text) → Isolated world conn_id (call_path host part)
  unfolding call_path call_wasm
  call_path-Isolated host part s = same_KeepsOthers world conn_id s _ (ground arith)
