-- ===== src/Engine/Insert/Counts.antt =====
-- src/parser/engine.rs: how many rows an INSERT reports, and where its ids go on.
use kssql.Common.{
  ℕ, suc, ◌+◌, ◌%◌, ◌^◌, ◌<◌, ◌≡◌, refl, sym, ap, ◌∙◌, Option, none, some, List, [], ◌∷◌, ◌++◌,
  Bytes, length, bytes_equality, nat_equality, arith, inl, inr, Option-cases,
}
use kssql.Common.Dict
use kssql.Common.Dict.{Dict}
use kssql.Common.Result.{ok}
use kssql.Common.Exec.{gets, ◌>>=◌, >>=-ok, >>=-keeps}
use kssql.Common.Text.{to_decimal}
use kssql.Storage.Codec.{Codec}
use kssql.Storage.Btree.Node.{Record}
use kssql.Storage.Wal.Frame.{WalEntry}
use kssql.Engine.State.{TableSchema, Engine, World, tier_insert}
use kssql.Engine.Rows.{Row}
use kssql.Engine.Statements.{rows_text}
use kssql.Engine.Transactions.{or_encode_failed}
use kssql.Engine.Insert.Finish.{kept_schemas, finish_insert_lem}
use kssql.Engine.Insert.{
  Literal, values, count_up, row_data, row_key, new_record, put_row, insert_row, insert_rows,
  finish_insert, insert_into, inserted_text, handle_insert,
}

-- The next id after this number of rows: it goes up by one for each, in `u64`, where a column counts up.
abbrev pub next_after : Option Bytes → ℕ → ℕ → ℕ
next_after none n next_id = next_id
next_after (some column) n next_id = (next_id + n) % 2 ^ 64

next_after-count_up :
    (column : Option Bytes) (n next_id : ℕ)
    → next_after column n (count_up column next_id) ≡ next_after column (suc n) next_id
next_after-count_up none n next_id = refl
next_after-count_up (some column) n next_id = omega arith

next_after_zero :
    (column : Option Bytes) (next_id : ℕ) → next_id < 2 ^ 64 → next_after column 0 next_id ≡ next_id
next_after_zero none next_id h = refl
next_after_zero (some column) next_id h = omega arith

count_up_small :
    (column : Option Bytes) (next_id : ℕ) → next_id < 2 ^ 64 → count_up column next_id < 2 ^ 64
count_up_small none next_id h = h
count_up_small (some column) next_id h = omega arith

module _ (world : World) where
  -- The schemas are the same.
  abbrev SameSchemas : Engine world.store → Engine world.store → Type 0
  SameSchemas s t = t.schemas ≡ s.schemas

  SameSchemas-trans :
      (s t u : Engine world.store) → SameSchemas s t → SameSchemas t u → SameSchemas s u
  SameSchemas-trans s t u a b = b ∙ a

  module _ (records : Codec Record) where
    put_row-SameSchemas :
        (conn_id : ℕ) (table_name : Bytes) (row : Row) (key val : Bytes) (s : Engine world.store)
        → SameSchemas s (put_row world records conn_id table_name row key val s).1
    unfolding put_row tier_insert
    put_row-SameSchemas conn_id table_name row key val s =
        elim (Option-cases (Dict.get s.active_transactions conn_id)) [
          | inl closed ↦ rw (put_row, closed) refl
          | inr (tx, open_tx) ↦ rw (put_row, open_tx) refl
        ]

    insert_row-SameSchemas :
        (table_name : Bytes) (schema : TableSchema) (conn_id next_id : ℕ) (exprs : List Literal)
        (s : Engine world.store)
        → SameSchemas s (insert_row world records table_name schema conn_id next_id exprs s).1
    unfolding insert_row new_record
    insert_row-SameSchemas table_name schema conn_id next_id exprs s =
        let row = row_data schema next_id exprs in
        let put = λ (val : Bytes).
          put_row world records conn_id table_name row
            (row_key table_name (world.random s.draws % 2 ^ 64)) val in
        >>=-keeps SameSchemas SameSchemas-trans
          (gets (λ t. or_encode_failed (world.row_codec.serialize row)))
          (λ v. new_record world records v >>= put) (record s { draws = s.draws + 1 }) refl
          (λ v.
            >>=-keeps SameSchemas SameSchemas-trans (new_record world records v) put
              (record s { draws = s.draws + 1 }) refl
              (λ val. put_row-SameSchemas conn_id table_name row _ val _))

    insert_rows_lem :
        (table_name : Bytes) (schema : TableSchema) (conn_id : ℕ) (rows : List (List Literal))
        (next_id : ℕ) (entries : List WalEntry) (count : ℕ) (s : Engine world.store)
        (out : ℕ × List WalEntry × ℕ)
        → next_id < 2 ^ 64
        → (insert_rows world records table_name schema conn_id rows next_id entries count s).0
          ≡ ok out
        → (out.0 ≡ next_after schema.auto_increment_col (length rows) next_id)
          × (out.2 ≡ count + length rows)
          × SameSchemas s
              (insert_rows world records table_name schema conn_id rows next_id entries count s).1
    unfolding insert_rows
    insert_rows_lem table_name schema conn_id [] next_id entries count s out small done =
        let e : (next_id, entries, count) ≡ out = cc in
        (
          sym (ap (λ o. o.0) e) ∙ sym (next_after_zero schema.auto_increment_col next_id small),
          omega (arith, ap (λ o. o.2) e),
          refl,
        )
    insert_rows_lem table_name schema conn_id (exprs ∷ rows) next_id entries count s out small
          done =
        let (more, fine, on) =
          >>=-ok (insert_row world records table_name schema conn_id next_id exprs)
            (λ more.
              insert_rows world records table_name schema conn_id rows
                (count_up schema.auto_increment_col next_id) (entries ++ more) (count + 1))
            s out done in
        let t = (insert_row world records table_name schema conn_id next_id exprs s).1 in
        let (next, total, same) =
          insert_rows_lem table_name schema conn_id rows
            (count_up schema.auto_increment_col next_id) (entries ++ more) (count + 1) t out
            (count_up_small schema.auto_increment_col next_id small)
            (sym (ap (λ r. r.0) on) ∙ done) in
        (
          next ∙ next_after-count_up schema.auto_increment_col (length rows) next_id,
          omega (arith, total),
          ap (λ r. r.1.schemas) on
              ∙ same
              ∙ insert_row-SameSchemas table_name schema conn_id next_id exprs s,
        )

    -- An INSERT of rows into a table that succeeds reports as many rows as were given, and the table's
    -- next id goes up by as many, in `u64`, where the table counts a column up; nothing else of the schemas
    -- has changed.
    pub handle_insert_lem :
        (table_name : Bytes) (rows : List (List Literal)) (conn_id : ℕ) (schema : TableSchema)
        (s : Engine world.store) (text : Bytes)
        → Dict.get s.schemas table_name ≡ some schema
        → schema.next_id < 2 ^ 64
        → (handle_insert world records table_name (values rows) conn_id s).0 ≡ ok text
        → (text ≡ inserted_text ++ (to_decimal (length rows) ++ rows_text))
          × ((handle_insert world records table_name (values rows) conn_id s).1.schemas
              ≡ kept_schemas table_name schema
                  (next_after schema.auto_increment_col (length rows) schema.next_id)
                  s.schemas)
    unfolding handle_insert
    handle_insert_lem table_name rows conn_id schema s text there small done =
        let opened : handle_insert world records table_name (values rows) conn_id s
            ≡ insert_into world records table_name schema (values rows) conn_id s =
          rw (handle_insert, there) refl in
        let (out, fine, on) =
          >>=-ok (insert_rows world records table_name schema conn_id rows schema.next_id [] 0)
            (λ inserted. finish_insert world records table_name schema inserted) s text
            (sym (ap (λ r. r.0) opened) ∙ done) in
        let (next, total, same) =
          insert_rows_lem table_name schema conn_id rows schema.next_id [] 0 s out small fine in
        let t =
          (insert_rows world records table_name schema conn_id rows schema.next_id [] 0 s).1 in
        let whole = opened ∙ on in
        let exact : out.2 ≡ length rows = omega (arith, total) in
        let (said, kept) =
          finish_insert_lem world records table_name schema out t text
            (sym (ap (λ r. r.0) whole) ∙ done) in
        (
          said ∙ ap (λ n. inserted_text ++ (to_decimal n ++ rows_text)) exact,
          ap (λ r. r.1.schemas) whole
              ∙ kept.1
              ∙ ap (kept_schemas table_name schema out.0) same
              ∙ ap (λ n. kept_schemas table_name schema n s.schemas) next,
        )
