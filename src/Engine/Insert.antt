-- ===== src/Engine/Insert.antt =====
-- src/parser/engine.rs: `handle_insert`.
pub mod Finish
pub mod Counts
pub mod Shown
use kssql.Common.{
  ℕ, zero, suc, ◌+◌, ◌%◌, ◌^◌, Bool, true, false, not, Option, none, some, List, [], ◌∷◌, ◌++◌,
  Bytes, bytes_equality, nat_equality, bytes_eq, ◌==◌, get_elem?, if◌then◌else◌,
}
use kssql.Common.Dict
use kssql.Common.Dict.{Dict}
use kssql.Common.Result.{Result, ok, err, table_not_found, unsupported_source}
use kssql.Common.Exec.{Exec, pure, gets, raise, ◌>>=◌, ◌>>◌}
use kssql.Common.Text.{to_decimal, hex16}
use kssql.Storage.Codec.{Codec}
use kssql.Storage.Btree.Node.{Record}
use kssql.Storage.Wal.Frame.{WalEntry, record_update}
use kssql.Engine.State.{
  Transaction, TableSchema, IndexSchema, Engine, World, next_version, tier_insert, wal_enqueue,
  wal_flush,
}
use kssql.Engine.Rows.{Row}
use kssql.Engine.Scan.{index_entry}
use kssql.Engine.Transactions.{or_encode_failed}
use kssql.Engine.Statements.{rows_text}

-- An expression of VALUES.
pub data Literal : Type 0 where
  number single_quoted_string : Bytes → Literal
  other_literal : Literal

-- What is inserted: the lists of VALUES, or a query.
pub data Source : Type 0 where
  values : List (List Literal) → Source
  other_source : Source

-- Anything but a number or a string becomes the text NULL.
abbrev pub literal_text : Literal → Bytes
literal_text (number n) = n
literal_text (single_quoted_string s) = s
literal_text other_literal = 78 ∷ 85 ∷ 76 ∷ 76 ∷ []

abbrev pub put_column : Option Bytes → Bytes → Row → Row
put_column none v row = row
put_column (some column) v row = Dict.insert row column v

-- The expressions go to the columns from this place on; those beyond the last are dropped.
unfoldable pub fill_columns : List Bytes → ℕ → List Literal → Row → Row
fill_columns columns col_idx [] row = row
fill_columns columns col_idx (e ∷ exprs) row =
    fill_columns columns (col_idx + 1) exprs
      (put_column (get_elem? columns col_idx) (literal_text e) row)

abbrev pub first_row : Option Bytes → ℕ → Row
first_row none next_id = []
first_row (some column) next_id = (column, to_decimal next_id) ∷ []

abbrev pub first_column : Option Bytes → ℕ
first_column none = 0
first_column (some column) = 1

-- `next_id += 1` where a column counts up
abbrev pub count_up : Option Bytes → ℕ → ℕ
count_up none next_id = next_id
count_up (some column) next_id = next_version next_id

-- the columns of a new row
unfoldable pub row_data : TableSchema → ℕ → List Literal → Row
unfolding fill_columns to_decimal
row_data schema next_id exprs =
    fill_columns schema.columns (first_column schema.auto_increment_col) exprs
      (first_row schema.auto_increment_col next_id)

-- `format!("{}:{:016x}", table_name, id)`
unfoldable pub row_key : Bytes → ℕ → Bytes
unfolding hex16
row_key table_name id = table_name ++ 58 ∷ hex16 id

abbrev pub entry_of_value : Bytes → Bytes → Bytes → Option Bytes → List WalEntry
entry_of_value table_name column key none = []
entry_of_value table_name column key (some v) =
    record_update (index_entry table_name column v) key ∷ []

-- the entries of the table's indices for a row
unfoldable pub index_entries : Dict Bytes IndexSchema → Bytes → Row → Bytes → List WalEntry
index_entries [] table_name row key = []
index_entries ((name, index) ∷ rest) table_name row key =
    let more = index_entries rest table_name row key in
    if bytes_eq index.table_name table_name
    then entry_of_value table_name index.column key (Dict.get row index.column) ++ more
    else more

-- "Inserted "
abbrev pub inserted_text : Bytes
inserted_text = 73 ∷ 110 ∷ 115 ∷ 101 ∷ 114 ∷ 116 ∷ 101 ∷ 100 ∷ 32 ∷ []

-- "__schemas__"
abbrev pub schemas_key : Bytes
schemas_key = 95 ∷ 95 ∷ 115 ∷ 99 ∷ 104 ∷ 101 ∷ 109 ∷ 97 ∷ 115 ∷ 95 ∷ 95 ∷ []

module _ (world : World) (records : Codec Record) where
  open world use {store, row_codec, schema_codec, clock, random}

  abbrev pub draw : Exec (Engine store) ℕ
  draw engine = (ok (random engine.draws % 2 ^ 64), record engine { draws = engine.draws + 1 })

  -- The bytes of a record with this value, of now and of the current version.
  unfoldable pub new_record : Bytes → Exec (Engine store) Bytes
  new_record v engine =
      let r : Record = record {
        value = v;
        version = engine.current_version;
        is_deleted = false;
        timestamp = clock engine.ticks;
      } in
      (or_encode_failed (records.serialize r), record engine { ticks = engine.ticks + 1 })

  -- Into the open transaction, or to the tier and the entries for the log.
  unfoldable pub put_row : ℕ → Bytes → Row → Bytes → Bytes → Exec (Engine store) (List WalEntry)
  unfolding tier_insert index_entries
  put_row conn_id table_name row key val engine =
      elim (Dict.get engine.active_transactions conn_id) [
        | some tx ↦
            let tx' = record tx { updates = Dict.insert tx.updates key val } in
            (
              ok [],
              record engine {
                active_transactions = Dict.insert engine.active_transactions conn_id tx';
              },
            )
        | none ↦ (
          ok (record_update key val ∷ index_entries engine.indices table_name row key),
          tier_insert world key val engine,
        )
      ]

  -- the body of the loop over the rows
  unfoldable pub insert_row :
      Bytes → TableSchema → ℕ → ℕ → List Literal → Exec (Engine store) (List WalEntry)
  unfolding row_data row_key new_record put_row
  insert_row table_name schema conn_id next_id exprs = do
    let row = row_data schema next_id exprs
    id ← draw
    v ← gets (λ s. or_encode_failed (row_codec.serialize row))
    val ← new_record v
    put_row conn_id table_name row (row_key table_name id) val

  -- The loop over the rows: the next id, the entries for the log, and the number of rows.
  unfoldable pub insert_rows :
      Bytes
      → TableSchema
      → ℕ
      → List (List Literal)
      → ℕ
      → List WalEntry
      → ℕ
      → Exec (Engine store) (ℕ × List WalEntry × ℕ)
  unfolding insert_row
  insert_rows table_name schema conn_id [] next_id entries count = pure (next_id, entries, count)
  insert_rows table_name schema conn_id (exprs ∷ rows) next_id entries count = do
    more ← insert_row table_name schema conn_id next_id exprs
    insert_rows table_name schema conn_id rows (count_up schema.auto_increment_col next_id)
        (entries ++ more) (count + 1)

  unfoldable pub enqueue_all : List WalEntry → Exec (Engine store) (Unit {0})
  unfolding wal_enqueue
  enqueue_all [] = pure tt
  enqueue_all (entry ∷ entries) = wal_enqueue world entry >> enqueue_all entries

  -- The map of the schemas as an entry for the log.
  abbrev pub log_schemas : Exec (Engine store) (Unit {0})
  log_schemas = do
    bytes ← gets (λ s. or_encode_failed (schema_codec.serialize s.schemas))
    val ← new_record bytes
    wal_enqueue world (record_update schemas_key val)

  -- `if next_id != schema.next_id`
  unfoldable pub keep_next_id : Bytes → TableSchema → ℕ → Exec (Engine store) (Unit {0})
  unfolding new_record wal_enqueue
  keep_next_id table_name schema next_id engine =
      let schemas = Dict.insert engine.schemas table_name (record schema { next_id = next_id }) in
      if next_id == schema.next_id
      then (ok tt, engine)
      else log_schemas (record engine { schemas = schemas })

  abbrev pub finish_insert : Bytes → TableSchema → ℕ × List WalEntry × ℕ → Exec (Engine store) Bytes
  finish_insert table_name schema (next_id, entries, count) = do
    enqueue_all entries
    keep_next_id table_name schema next_id
    wal_flush world
    pure (inserted_text ++ (to_decimal count ++ rows_text))

  abbrev pub insert_into : Bytes → TableSchema → Source → ℕ → Exec (Engine store) Bytes
  insert_into table_name schema other_source conn_id = raise unsupported_source
  insert_into table_name schema (values rows) conn_id = do
    inserted ← insert_rows table_name schema conn_id rows schema.next_id [] 0
    finish_insert table_name schema inserted

  unfoldable pub handle_insert : Bytes → Source → ℕ → Exec (Engine store) Bytes
  unfolding insert_rows enqueue_all keep_next_id wal_flush to_decimal
  handle_insert table_name source conn_id engine = elim (Dict.get engine.schemas table_name) [
    | none ↦ (err table_not_found, engine)
    | some schema ↦ insert_into table_name schema source conn_id engine
  ]
