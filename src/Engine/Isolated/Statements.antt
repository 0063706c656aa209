-- ===== src/Engine/Isolated/Statements.antt =====
-- src/parser/engine.rs: the other statements and the other connections' transactions.
use kssql.Common.{
  ℕ, refl, ◌+◌, Option, none, List, [], ◌∷◌, ◌++◌, Bytes, bytes_equality, nat_equality, inl, inr,
  Option-cases,
}
use kssql.Common.Dict
use kssql.Common.Result.{Result}
use kssql.Common.Exec.{pure, gets, ◌>>=◌}
use kssql.Common.Text.{to_decimal}
use kssql.Storage.Codec.{Codec}
use kssql.Storage.Btree.Node.{Record}
use kssql.Engine.State.{World, btree_insert}
use kssql.Engine.Rows.{Row}
use kssql.Engine.Filter.{Expr}
use kssql.Engine.Scan.{read_both, scan_table, scan_table_with_filter}
use kssql.Engine.Transactions.{or_encode_failed, write_row}
use kssql.Engine.Statements.{
  keys_matching, read_version, or_not_found, rewrite_rows, report, rewrite_selected, rows_text,
  flush_unless_open, rewrite_table, handle_update, handle_delete, updated, deleted, updated_text,
  deleted_text,
}
use kssql.Engine.Statements.Reads.{read_both-IsUntouched, scan-IsUntouched}
use kssql.Engine.Insert.{new_record, schemas_key}
use kssql.Engine.Tables.{Column, add_schema, save_schemas, create_table, table_created}
use kssql.Engine.Isolated.{
  Isolated, KeepsOthers-refl, KeepsOthers-trans, KeepsOthers->>=, same_KeepsOthers,
  untouched_KeepsOthers, wal_flush-Isolated, write_row-Isolated,
}
use kssql.Engine.Isolated.Rows.{new_record-Isolated}

module _ (world : World) (conn_id : ℕ) (records : Codec Record) where
  open world use {store}

  flush_unless_open-Isolated : Isolated world conn_id (flush_unless_open world records conn_id)
  unfolding flush_unless_open
  flush_unless_open-Isolated s = elim (Option-cases (Dict.get s.active_transactions conn_id)) [
    | inl closed ↦ rw (flush_unless_open, closed) (wal_flush-Isolated world conn_id s)
    | inr (tx, open_tx) ↦ rw (flush_unless_open, open_tx) (KeepsOthers-refl world conn_id s)
  ]

  report-Isolated :
      (text : Bytes) (count : ℕ) → Isolated world conn_id (report world records text conn_id count)
  report-Isolated text count s =
      KeepsOthers->>= world conn_id (flush_unless_open world records conn_id)
        (λ _. pure (text ++ (to_decimal count ++ rows_text))) s (flush_unless_open-Isolated s)
        (λ _ t. KeepsOthers-refl world conn_id t)

  rewrite_rows-Isolated :
      (change : Bytes → Result Bytes) (keys : List Bytes) (count : ℕ)
      → Isolated world conn_id (rewrite_rows world records change conn_id keys count)
  unfolding rewrite_rows
  rewrite_rows-Isolated change [] count s = KeepsOthers-refl world conn_id s
  rewrite_rows-Isolated change (key ∷ keys) count s =
      let next = λ (_ : Unit {0}). rewrite_rows world records change conn_id keys (count + 1) in
      let write = λ (val : Bytes). write_row world records conn_id key val >>= next in
      let rewrite = λ (bytes : Bytes). gets (λ v. change bytes) >>= write in
      KeepsOthers->>= world conn_id (read_both world key)
        (λ found. gets (λ u. or_not_found found) >>= rewrite) s
        (untouched_KeepsOthers world conn_id s _ (read_both-IsUntouched world key s))
        (λ found t.
          KeepsOthers->>= world conn_id (gets (λ u. or_not_found found)) rewrite t
            (KeepsOthers-refl world conn_id t)
            (λ bytes u.
              KeepsOthers->>= world conn_id (gets (λ v. change bytes)) write u
                (KeepsOthers-refl world conn_id u)
                (λ val v.
                  KeepsOthers->>= world conn_id (write_row world records conn_id key val) next v
                    (write_row-Isolated world conn_id records key val v)
                    (λ _ w. rewrite_rows-Isolated change keys (count + 1) w))))

  rewrite_selected-Isolated :
      (change : Bytes → Result Bytes) (text : Bytes) (selection : Option Expr) (rows : List Row)
      → Isolated world conn_id (rewrite_selected world records change text selection conn_id rows)
  rewrite_selected-Isolated change text selection rows s =
      KeepsOthers->>= world conn_id
        (rewrite_rows world records change conn_id (keys_matching selection rows) 0)
        (λ count. report world records text conn_id count) s
        (rewrite_rows-Isolated change (keys_matching selection rows) 0 s)
        (λ count t. report-Isolated text count t)

  rewrite_table-Isolated :
      (change : ℕ → Bytes → Result Bytes) (text table_name : Bytes) (selection : Option Expr)
      → Isolated world conn_id
          (rewrite_table world records change text table_name selection conn_id)
  unfolding rewrite_table
  rewrite_table-Isolated change text table_name selection s =
      let version = read_version world records conn_id s in
      KeepsOthers->>= world conn_id
        (scan_table_with_filter world records table_name version selection)
        (λ rows. rewrite_selected world records (change version) text selection conn_id rows) s
        (untouched_KeepsOthers world conn_id s _
          (scan-IsUntouched world records table_name version selection s))
        (λ rows t. rewrite_selected-Isolated (change version) text selection rows t)

  pub handle_update-Isolated :
      (table_name : Bytes) (assignments : List (Bytes × Bytes)) (selection : Option Expr)
      → Isolated world conn_id
          (handle_update world records table_name assignments selection conn_id)
  unfolding handle_update
  handle_update-Isolated table_name assignments selection =
      rewrite_table-Isolated (λ version bytes. updated world records version assignments bytes)
        updated_text table_name selection

  pub handle_delete-Isolated :
      (table_name : Bytes) (selection : Option Expr)
      → Isolated world conn_id (handle_delete world records table_name selection conn_id)
  unfolding handle_delete
  handle_delete-Isolated table_name selection =
      rewrite_table-Isolated (deleted world records) deleted_text table_name selection

  pub scan_table-Isolated :
      (table_name : Bytes) (version : ℕ)
      → Isolated world conn_id (scan_table world records table_name version)
  unfolding scan_table
  scan_table-Isolated table_name version s =
      untouched_KeepsOthers world conn_id s _
        (scan-IsUntouched world records table_name version none s)

  btree_insert-Isolated :
      (key value : Bytes) → Isolated world conn_id (btree_insert world key value)
  unfolding btree_insert
  btree_insert-Isolated key value s = same_KeepsOthers world conn_id s _ refl

  save_schemas-Isolated : Isolated world conn_id (save_schemas world records)
  unfolding save_schemas
  save_schemas-Isolated s =
      let put = λ (val : Bytes). btree_insert world schemas_key val in
      KeepsOthers->>= world conn_id
        (gets (λ t. or_encode_failed (world.schema_codec.serialize t.schemas)))
        (λ bytes. new_record world records bytes >>= put) s (KeepsOthers-refl world conn_id s)
        (λ bytes t.
          KeepsOthers->>= world conn_id (new_record world records bytes) put t
            (new_record-Isolated world conn_id records bytes t)
            (λ val u. btree_insert-Isolated schemas_key val u))

  pub create_table-Isolated :
      (name : Bytes) (columns : List Column)
      → Isolated world conn_id (create_table world records name columns)
  unfolding create_table
  create_table-Isolated name columns s =
      let t = add_schema world records name columns s in
      KeepsOthers-trans world conn_id s t _ (same_KeepsOthers world conn_id s t refl) (
        KeepsOthers->>= world conn_id (save_schemas world records) (λ _. pure table_created) t
          (save_schemas-Isolated t) (λ _ u. KeepsOthers-refl world conn_id u))
