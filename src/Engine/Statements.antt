-- ===== src/Engine/Statements.antt =====
-- src/parser/engine.rs: UPDATE and DELETE. Both find the keys of their rows and rewrite their records.
pub mod Reads
pub mod Rewritten
pub mod Answered
pub mod Buffered
use kssql.Common.{
  ℕ, ◌+◌, Bool, true, false, Option, none, some, List, [], ◌∷◌, ◌++◌, Bytes, bytes_equality,
  nat_equality, if◌then◌else◌,
}
use kssql.Common.Dict
use kssql.Common.Dict.{Dict}
use kssql.Common.Result.{Result, ok, err, decode_failed, encode_failed, record_not_found}
use kssql.Common.Exec.{Exec, pure, gets, ◌>>=◌, ◌>>◌}
use kssql.Common.Text.{to_decimal}
use kssql.Storage.Codec.{Codec}
use kssql.Storage.Btree.Node.{Record}
use kssql.Engine.State.{Transaction, Engine, World, next_version, wal_flush}
use kssql.Engine.Filter.{Expr, evaluate_where, without_quotes}
use kssql.Engine.Rows.{Row, key_column}
use kssql.Engine.Scan.{read_both, scan_table_with_filter}
use kssql.Engine.Transactions.{or_encode_failed, write_row}

-- `selection.as_ref().map(...).unwrap_or(true)`
abbrev pub is_selected : Option Expr → Row → Bool
is_selected none row = true
is_selected (some expr) row = evaluate_where expr row

abbrev pub add_key : Option Bytes → List Bytes → List Bytes
add_key none keys = keys
add_key (some key) keys = key ∷ keys

-- the keys of the selected rows
unfoldable pub keys_matching : Option Expr → List Row → List Bytes
unfolding evaluate_where
keys_matching selection [] = []
keys_matching selection (row ∷ rows) =
    let more = keys_matching selection rows in
    if is_selected selection row then add_key (Dict.get row key_column) more else more

-- Columns with the printed values that are assigned to them.
unfoldable pub assign_all : List (Bytes × Bytes) → Dict Bytes Bytes → Dict Bytes Bytes
assign_all [] row = row
assign_all ((column, v) ∷ rest) row = assign_all rest (Dict.insert row column (without_quotes v))

abbrev pub or_not_found : Option Bytes → Result Bytes
or_not_found none = err record_not_found
or_not_found (some bytes) = ok bytes

-- "Updated ", "Deleted " and " rows"
abbrev pub updated_text : Bytes
updated_text = 85 ∷ 112 ∷ 100 ∷ 97 ∷ 116 ∷ 101 ∷ 100 ∷ 32 ∷ []

abbrev pub deleted_text : Bytes
deleted_text = 68 ∷ 101 ∷ 108 ∷ 101 ∷ 116 ∷ 101 ∷ 100 ∷ 32 ∷ []

abbrev pub rows_text : Bytes
rows_text = 32 ∷ 114 ∷ 111 ∷ 119 ∷ 115 ∷ []

module _ (world : World) (records : Codec Record) where
  open world use {store, row_codec}

  -- The version that a connection reads at.
  unfoldable pub read_version : ℕ → Engine store → ℕ
  read_version conn_id engine = elim (Dict.get engine.active_transactions conn_id) [
    | none ↦ engine.current_version
    | some tx ↦ tx.snapshot_version
  ]

  -- the record with the columns assigned
  unfoldable pub updated : ℕ → List (Bytes × Bytes) → Bytes → Result Bytes
  unfolding assign_all
  updated version assignments bytes = elim (records.deserialize bytes) [
    | none ↦ err decode_failed
    | some r ↦ elim (row_codec.deserialize r.value) [
      | none ↦ err decode_failed
      | some row ↦ elim (row_codec.serialize (assign_all assignments row)) [
        | none ↦ err encode_failed
        | some v ↦
            or_encode_failed
              (records.serialize (record r { value = v; version = next_version version }))
      ]
    ]
  ]

  -- the record marked as deleted
  unfoldable pub deleted : ℕ → Bytes → Result Bytes
  deleted version bytes = elim (records.deserialize bytes) [
    | none ↦ err decode_failed
    | some r ↦
        or_encode_failed
          (records.serialize (record r { is_deleted = true; version = next_version version }))
  ]

  -- The second loop of both handlers, with what becomes of a record; it counts the rows.
  unfoldable pub rewrite_rows : (Bytes → Result Bytes) → ℕ → List Bytes → ℕ → Exec (Engine store) ℕ
  unfolding read_both write_row
  rewrite_rows change conn_id [] count = pure count
  rewrite_rows change conn_id (key ∷ keys) count = do
    found ← read_both world key
    bytes ← gets (λ s. or_not_found found)
    val ← gets (λ s. change bytes)
    write_row world records conn_id key val
    rewrite_rows change conn_id keys (count + 1)

  abbrev pub flush_if_none : Option Transaction → Exec (Engine store) (Unit {0})
  flush_if_none none = wal_flush world
  flush_if_none (some tx) = pure tt

  -- `if !active_transactions.contains_key(&conn_id)`
  unfoldable pub flush_unless_open : ℕ → Exec (Engine store) (Unit {0})
  unfolding wal_flush
  flush_unless_open conn_id engine =
      flush_if_none (Dict.get engine.active_transactions conn_id) engine

  abbrev pub report : Bytes → ℕ → ℕ → Exec (Engine store) Bytes
  report text conn_id count = do
    flush_unless_open conn_id
    pure (text ++ (to_decimal count ++ rows_text))

  abbrev pub rewrite_selected :
      (Bytes → Result Bytes) → Bytes → Option Expr → ℕ → List Row → Exec (Engine store) Bytes
  rewrite_selected change text selection conn_id rows = do
    count ← rewrite_rows change conn_id (keys_matching selection rows) 0
    report text conn_id count

  abbrev pub rewrite_at :
      (ℕ → Bytes → Result Bytes) → Bytes → Bytes → Option Expr → ℕ → ℕ → Exec (Engine store) Bytes
  rewrite_at change text table_name selection conn_id version = do
    rows ← scan_table_with_filter world records table_name version selection
    rewrite_selected (change version) text selection conn_id rows

  -- The course of both handlers: they read the version, scan, rewrite, and flush outside a transaction.
  unfoldable pub rewrite_table :
      (ℕ → Bytes → Result Bytes) → Bytes → Bytes → Option Expr → ℕ → Exec (Engine store) Bytes
  unfolding read_version scan_table_with_filter keys_matching rewrite_rows flush_unless_open
      to_decimal
  rewrite_table change text table_name selection conn_id = do
    version ← gets (λ s. ok (read_version conn_id s))
    rewrite_at change text table_name selection conn_id version

  unfoldable pub handle_update :
      Bytes → List (Bytes × Bytes) → Option Expr → ℕ → Exec (Engine store) Bytes
  unfolding rewrite_table updated
  handle_update table_name assignments selection conn_id =
      rewrite_table (λ version bytes. updated version assignments bytes) updated_text table_name
        selection conn_id

  unfoldable pub handle_delete : Bytes → Option Expr → ℕ → Exec (Engine store) Bytes
  unfolding rewrite_table deleted
  handle_delete table_name selection conn_id =
      rewrite_table deleted deleted_text table_name selection conn_id
