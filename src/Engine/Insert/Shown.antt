-- ===== src/Engine/Insert/Shown.antt =====
-- src/parser/engine.rs: a row that was inserted is in the next scan of its table.
use mathlib.Core.List.{Memᴰ}
use kssql.Common.{
  ℕ, ◌+◌, ◌%◌, ◌^◌, ◌<◌, ◌≤◌, ◌≡◌, refl, sym, ap, ◌∙◌, subst, none, some, List, [], ◌∷◌, ◌++◌,
  append_assoc, append-nil, Bytes, bytes_equality, nat_equality, leb, All, All-append, arith, inl,
  inr, Option-cases, true, false,
}
use kssql.Common.Dict
use kssql.Common.Dict.{Dict}
use kssql.Common.Result.{ok}
use kssql.Common.Exec.{>>=-ok}
use kssql.Common.Text.{
  starts_with, starts_with-append, from_utf8_lossy, from_utf8_lossy_ascii, hex16, hex16_ascii,
}
use kssql.Storage.Codec.{Codec, IsFaithful}
use kssql.Storage.Btree.Node.{Record}
use kssql.Storage.MemoryTier
use kssql.Storage.MemoryTier.Lookup.{get-insert_lem, get_lem}
use kssql.Storage.Wal.Frame.{WalEntry}
use kssql.Engine.State.{TableSchema, Engine, World, tier_insert}
use kssql.Engine.Rows.{Row, row_of, visible_row}
use kssql.Engine.Scan.{prefix_of, scan_table}
use kssql.Engine.Scan.Reference.{shown}
use kssql.Engine.Scan.Shows.{scan_all_shows}
use kssql.Engine.Insert.Finish.{finish_insert_lem}
use kssql.Engine.Insert.{
  Literal, values, row_data, row_key, new_record, put_row, insert_row, insert_rows, count_up,
  finish_insert, insert_into, handle_insert,
}

-- The key of a row is read as it is, and begins as the keys of its table do.
row_key_lem :
    (table_name : Bytes) (id : ℕ)
    → All (λ b. b < 128) table_name
    → (from_utf8_lossy (row_key table_name id) ≡ row_key table_name id)
      × (starts_with (prefix_of table_name) (row_key table_name id) ≡ true)
unfolding row_key
row_key_lem table_name id ascii = (
  from_utf8_lossy_ascii (table_name ++ 58 ∷ hex16 id)
      (All-append (λ b. b < 128) table_name (58 ∷ hex16 id) ascii (omega arith, hex16_ascii id)),
  subst (λ l. starts_with (table_name ++ 58 ∷ []) l ≡ true)
      (append_assoc table_name (58 ∷ []) (hex16 id))
      (starts_with-append (table_name ++ 58 ∷ []) (hex16 id)),
)

module _ (world : World) (records : Codec Record) where
  open world use {store, row_codec, clock, random}

  -- the record of a new row
  abbrev pub record_of : Bytes → Engine store → Record
  record_of v s = record {
    value = v;
    version = s.current_version;
    is_deleted = false;
    timestamp = clock s.ticks;
  }

  -- A record that is not deleted shows its row from its version on.
  shown_lem :
      (table_name : Bytes) (version : ℕ) (key val : Bytes) (r : Record) (base : Dict Bytes Bytes)
      → from_utf8_lossy key ≡ key
      → starts_with (prefix_of table_name) key ≡ true
      → records.deserialize val ≡ some r
      → r.version ≤ version
      → r.is_deleted ≡ false
      → row_codec.deserialize r.value ≡ some base
      → shown records row_codec table_name version key val ≡ ok (some (row_of table_name key base))
  unfolding visible_row
  shown_lem table_name version key val r base plain own back current live read =
      let fresh : leb r.version version ≡ true = ground (arith, current) in
      rw (plain, own, visible_row, back, fresh, live, read)
        (ap (λ k. ok (some (row_of table_name k base))) plain)

  -- Outside a transaction a row goes to the memory tier.
  insert_row_lem :
      (table_name : Bytes) (schema : TableSchema) (conn_id next_id : ℕ) (exprs : List Literal)
      (s : Engine store) (v : Bytes) (more : List WalEntry)
      → Dict.get s.active_transactions conn_id ≡ none
      → row_codec.serialize (row_data schema next_id exprs) ≡ some v
      → (insert_row world records table_name schema conn_id next_id exprs s).0 ≡ ok more
      → (val : Bytes) × (records.serialize (record_of v s) ≡ some val)
        × (Dict.get
              (insert_row world records table_name schema conn_id next_id exprs
                s).1.btree.memory_tier.cache
              (row_key table_name (random s.draws % 2 ^ 64))
            ≡ some val)
  unfolding insert_row new_record put_row tier_insert
  insert_row_lem table_name schema conn_id next_id exprs s v more closed made done =
      elim (Option-cases (records.serialize (record_of v s))) [
        | inl bad ↦ absurd (ground (arith, made, bad, done))
        | inr (val, good) ↦
            let key = row_key table_name (random s.draws % 2 ^ 64) in
            let tier = s.btree.memory_tier in
            let now = clock (s.ticks + 1) in
            (
              val,
              good,
              rw (insert_row, made, good, closed)
                  (sym (get_lem key (MemoryTier.insert now key val tier)).0
                    ∙ (get-insert_lem now key val key tier).0),
            )
      ]

  -- Outside a transaction, an INSERT of one row that succeeds leaves the record of the row in the memory tier.
  insert_one_lem :
      (table_name : Bytes) (schema : TableSchema) (conn_id : ℕ) (exprs : List Literal)
      (s : Engine store) (v text : Bytes)
      → Dict.get s.schemas table_name ≡ some schema
      → Dict.get s.active_transactions conn_id ≡ none
      → row_codec.serialize (row_data schema schema.next_id exprs) ≡ some v
      → (handle_insert world records table_name (values (exprs ∷ [])) conn_id s).0 ≡ ok text
      → (val : Bytes) × (records.serialize (record_of v s) ≡ some val)
        × (Dict.get
              (handle_insert world records table_name
                (values (exprs ∷ []))
                conn_id
                s).1.btree.memory_tier.cache
              (row_key table_name (random s.draws % 2 ^ 64))
            ≡ some val)
  unfolding handle_insert insert_rows
  insert_one_lem table_name schema conn_id exprs s v text there closed made done =
      let key = row_key table_name (random s.draws % 2 ^ 64) in
      let opened : handle_insert world records table_name (values (exprs ∷ [])) conn_id s
          ≡ insert_into world records table_name schema (values (exprs ∷ [])) conn_id s =
        rw (handle_insert, there) refl in
      let (out, fine, on) =
        >>=-ok
          (insert_rows world records table_name schema conn_id (exprs ∷ []) schema.next_id [] 0)
          (λ inserted. finish_insert world records table_name schema inserted) s text
          (sym (ap (λ r. r.0) opened) ∙ done) in
      let (more, wrote, on') =
        >>=-ok (insert_row world records table_name schema conn_id schema.next_id exprs)
          (λ more.
            insert_rows world records table_name schema conn_id []
              (count_up schema.auto_increment_col schema.next_id) ([] ++ more) (0 + 1))
          s out fine in
      let (val, good, held) =
        insert_row_lem table_name schema conn_id schema.next_id exprs s v more closed made wrote in
      let whole = opened ∙ on in
      let t =
        (insert_rows world records table_name schema conn_id (exprs ∷ []) schema.next_id [] 0
          s).1 in
      let (said, same) =
        finish_insert_lem world records table_name schema out t text
          (sym (ap (λ r. r.0) whole) ∙ done) in
      let cache =
        ap (λ r. r.1.btree.memory_tier.cache) whole
        ∙ same.0
        ∙ ap (λ r. r.1.btree.memory_tier.cache) on' in
      (val, good, ap (λ c. Dict.get c key) cache ∙ held)

  -- Outside a transaction, in a table with a name of ASCII: if an INSERT of one row succeeds, and its columns
  -- are read back as `base`, then every scan of the table after it that succeeds, at no older version,
  -- returns the row with its key and these columns.
  pub scan_table-handle_insert :
      (table_name : Bytes) (schema : TableSchema) (conn_id version : ℕ) (exprs : List Literal)
      (s : Engine store) (v text : Bytes) (base : Dict Bytes Bytes) (rows : List Row)
      → IsFaithful records
      → All (λ b. b < 128) table_name
      → Dict.get s.schemas table_name ≡ some schema
      → Dict.get s.active_transactions conn_id ≡ none
      → row_codec.serialize (row_data schema schema.next_id exprs) ≡ some v
      → row_codec.deserialize v ≡ some base
      → (handle_insert world records table_name (values (exprs ∷ [])) conn_id s).0 ≡ ok text
      → s.current_version ≤ version
      → (scan_table world records table_name version
          (handle_insert world records table_name (values (exprs ∷ [])) conn_id s).1).0
        ≡ ok rows
      → Memᴰ (row_of table_name (row_key table_name (random s.draws % 2 ^ 64)) base) rows
  unfolding scan_table
  scan_table-handle_insert table_name schema conn_id version exprs s v text base rows faithful ascii
        there closed made read done current found =
      let key = row_key table_name (random s.draws % 2 ^ 64) in
      let (val, good, held) =
        insert_one_lem table_name schema conn_id exprs s v text there closed made done in
      let (plain, own) = row_key_lem table_name (random s.draws % 2 ^ 64) ascii in
      let back : records.deserialize val ≡ some (record_of v s) =
        subst (λ b. records.deserialize b ≡ some (record_of v s)) (append-nil val)
          (faithful.read_back (record_of v s) val 0 good) in
      let visible : shown records row_codec table_name version key val
          ≡ ok (some (row_of table_name key base)) =
        shown_lem table_name version key val (record_of v s) base plain own back current refl
          read in
      scan_all_shows world records table_name version
        (handle_insert world records table_name (values (exprs ∷ [])) conn_id s).1 key val
        (row_of table_name key base) rows held visible found
