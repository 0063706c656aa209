-- ===== src/Engine/Isolated/Rows.antt =====
-- src/parser/engine.rs: an INSERT and the other connections' transactions.
use kssql.Common.{
  ℕ, ◌%◌, ◌^◌, ◌==◌, refl, List, [], ◌∷◌, ◌++◌, ◌+◌, Bytes, bytes_equality, nat_equality, inl, inr,
  Option-cases, Bool-cases,
}
use kssql.Common.Dict
use kssql.Common.Exec.{pure, gets, ◌>>=◌}
use kssql.Common.Text.{to_decimal}
use kssql.Storage.Codec.{Codec}
use kssql.Storage.Btree.Node.{Record}
use kssql.Storage.Wal.Frame.{WalEntry, record_update}
use kssql.Engine.State.{TableSchema, World, wal_enqueue, wal_flush}
use kssql.Engine.Rows.{Row}
use kssql.Engine.Statements.{rows_text}
use kssql.Engine.Transactions.{or_encode_failed}
use kssql.Engine.Insert.{
  Literal, Source, values, other_source, row_data, row_key, new_record, put_row, insert_row,
  insert_rows, enqueue_all, log_schemas, keep_next_id, finish_insert, insert_into, handle_insert,
  count_up, inserted_text, schemas_key,
}
use kssql.Engine.Isolated.{
  Isolated, KeepsOthers-refl, KeepsOthers-trans, KeepsOthers->>=, same_KeepsOthers, put_own,
  tier_insert-KeepsOthers, wal_enqueue-Isolated, wal_flush-Isolated,
}

module _ (world : World) (conn_id : ℕ) (records : Codec Record) where
  open world use {store}

  pub new_record-Isolated : (v : Bytes) → Isolated world conn_id (new_record world records v)
  unfolding new_record
  new_record-Isolated v s = same_KeepsOthers world conn_id s _ refl

  put_row-Isolated :
      (table_name : Bytes) (row : Row) (key val : Bytes)
      → Isolated world conn_id (put_row world records conn_id table_name row key val)
  unfolding put_row
  put_row-Isolated table_name row key val s =
      elim (Option-cases (Dict.get s.active_transactions conn_id)) [
        | inl closed ↦ rw (put_row, closed) (tier_insert-KeepsOthers world conn_id key val s)
        | inr (tx, open_tx) ↦ rw (put_row, open_tx) (put_own world conn_id _ s)
      ]

  insert_row-Isolated :
      (table_name : Bytes) (schema : TableSchema) (next_id : ℕ) (exprs : List Literal)
      → Isolated world conn_id (insert_row world records table_name schema conn_id next_id exprs)
  unfolding insert_row
  insert_row-Isolated table_name schema next_id exprs s =
      let row = row_data schema next_id exprs in
      let put = λ (val : Bytes).
        put_row world records conn_id table_name row
          (row_key table_name (world.random s.draws % 2 ^ 64)) val in
      let t = record s { draws = s.draws + 1 } in
      KeepsOthers-trans world conn_id s t _ (same_KeepsOthers world conn_id s t refl) (
        KeepsOthers->>= world conn_id (gets (λ u. or_encode_failed (world.row_codec.serialize row)))
          (λ v. new_record world records v >>= put) t (KeepsOthers-refl world conn_id t)
          (λ v u.
            KeepsOthers->>= world conn_id (new_record world records v) put u
              (new_record-Isolated v u) (λ val w. put_row-Isolated table_name row _ val w)))

  insert_rows-Isolated :
      (table_name : Bytes) (schema : TableSchema) (rows : List (List Literal)) (next_id : ℕ)
      (entries : List WalEntry) (count : ℕ)
      → Isolated world conn_id
          (insert_rows world records table_name schema conn_id rows next_id entries count)
  unfolding insert_rows
  insert_rows-Isolated table_name schema [] next_id entries count s =
      KeepsOthers-refl world conn_id s
  insert_rows-Isolated table_name schema (exprs ∷ rows) next_id entries count s =
      KeepsOthers->>= world conn_id
        (insert_row world records table_name schema conn_id next_id exprs)
        (λ more.
          insert_rows world records table_name schema conn_id rows
            (count_up schema.auto_increment_col next_id) (entries ++ more) (count + 1))
        s (insert_row-Isolated table_name schema next_id exprs s)
        (λ more t. insert_rows-Isolated table_name schema rows _ (entries ++ more) (count + 1) t)

  enqueue_all-Isolated :
      (entries : List WalEntry) → Isolated world conn_id (enqueue_all world records entries)
  unfolding enqueue_all
  enqueue_all-Isolated [] s = KeepsOthers-refl world conn_id s
  enqueue_all-Isolated (entry ∷ entries) s =
      KeepsOthers->>= world conn_id (wal_enqueue world entry)
        (λ _. enqueue_all world records entries) s (wal_enqueue-Isolated world conn_id entry s)
        (λ _ t. enqueue_all-Isolated entries t)

  log_schemas-Isolated : Isolated world conn_id (log_schemas world records)
  log_schemas-Isolated s =
      let log = λ (val : Bytes). wal_enqueue world (record_update schemas_key val) in
      KeepsOthers->>= world conn_id
        (gets (λ t. or_encode_failed (world.schema_codec.serialize t.schemas)))
        (λ bytes. new_record world records bytes >>= log) s (KeepsOthers-refl world conn_id s)
        (λ bytes t.
          KeepsOthers->>= world conn_id (new_record world records bytes) log t
            (new_record-Isolated bytes t) (λ val u. wal_enqueue-Isolated world conn_id _ u))

  keep_next_id-Isolated :
      (table_name : Bytes) (schema : TableSchema) (next_id : ℕ)
      → Isolated world conn_id (keep_next_id world records table_name schema next_id)
  unfolding keep_next_id
  keep_next_id-Isolated table_name schema next_id s =
      elim (Bool-cases (next_id == schema.next_id)) [
        | inl same ↦ rw (keep_next_id, same) (KeepsOthers-refl world conn_id s)
        | inr changed ↦
            let t = record s {
              schemas = Dict.insert s.schemas table_name (record schema { next_id = next_id });
            } in
            rw (keep_next_id, changed)
              (KeepsOthers-trans world conn_id s t _ (same_KeepsOthers world conn_id s t refl)
                (log_schemas-Isolated t))
      ]

  finish_insert-Isolated :
      (table_name : Bytes) (schema : TableSchema) (next_id : ℕ) (entries : List WalEntry)
      (count : ℕ)
      → Isolated world conn_id
          (finish_insert world records table_name schema (next_id, entries, count))
  unfolding wal_flush
  finish_insert-Isolated table_name schema next_id entries count s =
      let text = inserted_text ++ (to_decimal count ++ rows_text) in
      let flush = λ (_ : Unit {0}). wal_flush world >>= λ (_ : Unit {0}). pure text in
      KeepsOthers->>= world conn_id (enqueue_all world records entries)
        (λ _. keep_next_id world records table_name schema next_id >>= flush) s
        (enqueue_all-Isolated entries s)
        (λ _ t.
          KeepsOthers->>= world conn_id (keep_next_id world records table_name schema next_id) flush
            t (keep_next_id-Isolated table_name schema next_id t)
            (λ _ u. wal_flush-Isolated world conn_id u))

  insert_into-Isolated :
      (table_name : Bytes) (schema : TableSchema) (source : Source)
      → Isolated world conn_id (insert_into world records table_name schema source conn_id)
  insert_into-Isolated table_name schema other_source s = KeepsOthers-refl world conn_id s
  insert_into-Isolated table_name schema (values rows) s =
      KeepsOthers->>= world conn_id
        (insert_rows world records table_name schema conn_id rows schema.next_id [] 0)
        (λ inserted. finish_insert world records table_name schema inserted) s
        (insert_rows-Isolated table_name schema rows schema.next_id [] 0 s)
        (λ (next_id, entries, count) t.
          finish_insert-Isolated table_name schema next_id entries count t)

  pub handle_insert-Isolated :
      (table_name : Bytes) (source : Source)
      → Isolated world conn_id (handle_insert world records table_name source conn_id)
  unfolding handle_insert
  handle_insert-Isolated table_name source s = elim (Option-cases (Dict.get s.schemas table_name)) [
    | inl missing ↦ rw (handle_insert, missing) (KeepsOthers-refl world conn_id s)
    | inr (schema, there) ↦
        rw (handle_insert, there) (insert_into-Isolated table_name schema source s)
  ]
