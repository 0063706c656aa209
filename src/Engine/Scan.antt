-- ===== src/Engine/Scan.antt =====
-- src/parser/engine.rs: `scan_table_with_filter`. The index is asked first, then the memory tier is
-- scanned, then the leaves of the tree.
pub mod Reference
pub mod Leaves
pub mod Shows
use kssql.Common.{
  ℕ, zero, suc, ◌+◌, Bool, true, false, ◌||◌, Option, none, some, List, [], ◌∷◌, ◌++◌, Bytes,
  bytes_equality, bytes_eq, ◌==◌, if◌then◌else◌,
}
use kssql.Common.Dict.{Dict}
use kssql.Common.Result.{Result, ok, err, panic, out_of_fuel}
use kssql.Common.Exec.{Exec, pure, gets, ◌>>=◌, ◌>>◌}
use kssql.Common.Text.{starts_with, from_utf8_lossy}
use kssql.Storage.Codec.{Codec}
use kssql.Storage.Btree.Node.{Record, Node, leaf, internal}
use kssql.Storage.MemoryTier
use kssql.Engine.State.{Engine, World, btree_get}
use kssql.Engine.Filter.{
  Expr, binary_op, identifier, compound_identifier, value, nested, other_expr, eq, without_quotes,
  last_part, or_else,
}
use kssql.Engine.Rows.{Row, visible_row}

abbrev pub contains : List Bytes → Bytes → Bool
contains [] key = false
contains (k ∷ keys) key = bytes_eq k key || contains keys key

-- `rows` and `processed_keys`
abbrev pub Found : Type 0
Found = List Row × List Bytes

-- `format!("{}:", table_name)`
abbrev pub prefix_of : Bytes → Bytes
prefix_of table_name = table_name ++ 58 ∷ []

abbrev pub id_of : Expr → Option Bytes
id_of (identifier i) = some i
id_of (compound_identifier first parts) = some (last_part first parts)
id_of (binary_op l op r) = none
id_of (value v) = none
id_of (nested e) = none
id_of other_expr = none

abbrev pub value_of : Expr → Option Bytes
value_of (value v) = some (without_quotes v)
value_of (binary_op l op r) = none
value_of (identifier i) = none
value_of (compound_identifier first parts) = none
value_of (nested e) = none
value_of other_expr = none

-- `format!("idx:{}:{}:{}", table_name, column, value)`
abbrev pub index_entry : Bytes → Bytes → Bytes → Bytes
index_entry table_name column v =
    (105 ∷ 100 ∷ 120 ∷ 58 ∷ []) ++ (table_name ++ 58 ∷ (column ++ 58 ∷ v))

abbrev pub both_parts : Bytes → Option Bytes → Option Bytes → Option Bytes
both_parts table_name none v = none
both_parts table_name (some column) none = none
both_parts table_name (some column) (some v) = some (index_entry table_name column v)

-- The key of the index for a filter that compares a column with a value.
unfoldable pub index_key : Bytes → Option Expr → Option Bytes
index_key table_name (some (binary_op l eq r)) =
    both_parts table_name (or_else (id_of l) (id_of r)) (or_else (value_of l) (value_of r))
index_key table_name _ = none

-- A record of a page's node: `values[i]`
abbrev pub or_panic_at : List Bytes → Result Bytes
or_panic_at [] = err panic
or_panic_at (v ∷ vs) = ok v

abbrev pub tail_of : List Bytes → List Bytes
tail_of [] = []
tail_of (v ∷ vs) = vs

module _ (records : Codec Record) (row_codec : Codec (Dict Bytes Bytes)) (table_name : Bytes)
    (version : ℕ) where
  abbrev pub add_found : Bytes → Found → Result (Option Row) → Result Found
  add_found key (rows, processed) (ok (some row)) = ok (rows ++ row ∷ [], processed ++ key ∷ [])
  add_found key found (ok none) = ok found
  add_found key found (err e) = err e

  -- the body of both loops: a key of the table with its record
  unfoldable pub scan_entry : Bytes → Result Bytes → Found → Result Found
  unfolding visible_row from_utf8_lossy
  scan_entry key bytes found =
      if starts_with (prefix_of table_name) (from_utf8_lossy key)
      then elim bytes [
        | err e ↦ err e
        | ok b ↦
            add_found key found
              (visible_row records row_codec table_name version (from_utf8_lossy key) b)
      ]
      else ok found

  unfoldable pub scan_cache : Dict Bytes Bytes → Found → Result Found
  unfolding scan_entry
  scan_cache [] found = ok found
  scan_cache ((key, bytes) ∷ rest) found = elim (scan_entry key (ok bytes) found) [
    | err e ↦ err e
    | ok found' ↦ scan_cache rest found'
  ]

  -- the keys of a leaf with the values at the same places
  unfoldable pub scan_leaf : List Bytes → List Bytes → Found → Result Found
  unfolding scan_entry
  scan_leaf [] values found = ok found
  scan_leaf (key ∷ keys) values found =
      elim (if contains found.1 key then ok found else scan_entry key (or_panic_at values) found) [
        | err e ↦ err e
        | ok found' ↦ scan_leaf keys (tail_of values) found'
      ]

module _ (world : World) where
  open world use {store}

  -- `memory_tier.get(key).or(btree.get(key).await?)`: the tree is asked in any case.
  unfoldable pub read_both : Bytes → Exec (Engine store) (Option Bytes)
  unfolding btree_get
  read_both key engine =
      let (hit, tier) = MemoryTier.get key engine.btree.memory_tier in
      let (r, engine') =
        btree_get world key
          (record engine { btree = record engine.btree { memory_tier = tier } }) in
      elim r [ err e ↦ (err e, engine') | ok below ↦ (ok (or_else hit below), engine') ]

module _ (world : World) (records : Codec Record) where
  open world use {store, depth, chain, row_codec}

  -- down the first children, to a leaf or to a node without children
  unfoldable pub first_leaf : ℕ → store.State → ℕ → Result ℕ
  first_leaf zero pages page_id = err out_of_fuel
  first_leaf (suc fuel) pages page_id = elim (store.load pages page_id) [
    | err e ↦ err e
    | ok node ↦ elim node.node_type [
      | leaf ↦ ok page_id
      | internal ↦ elim node.children [
        | [] ↦ ok page_id
        | child ∷ children ↦ first_leaf fuel pages child
      ]
    ]
  ]

  -- A leaf that links to itself ends the walk; the source does not look for longer circles.
  unfoldable pub scan_leaves : Bytes → ℕ → ℕ → store.State → ℕ → Found → Result Found
  unfolding scan_leaf
  scan_leaves table_name version zero pages page_id found = err out_of_fuel
  scan_leaves table_name version (suc fuel) pages page_id found = elim (store.load pages page_id) [
    | err e ↦ err e
    | ok node ↦ elim (scan_leaf records row_codec table_name version node.keys node.values found) [
      | err e ↦ err e
      | ok found' ↦ elim node.next_leaf [
        | none ↦ ok found'
        | some next ↦
            let rest = scan_leaves table_name version fuel pages next found' in
            if next == page_id then ok found' else rest
      ]
    ]
  ]

  unfoldable pub scan_all : Bytes → ℕ → Engine store → Result (List Row)
  unfolding scan_cache first_leaf scan_leaves
  scan_all table_name version engine =
      elim (scan_cache records row_codec table_name version engine.btree.memory_tier.cache
        ([], [])) [
          | err e ↦ err e
          | ok found ↦ elim (first_leaf depth engine.btree.pages 0) [
            | err e ↦ err e
            | ok page_id ↦
                elim (scan_leaves table_name version chain engine.btree.pages page_id found) [
                  | err e ↦ err e
                  | ok found' ↦ ok found'.0
                ]
          ]
        ]

  -- The key that an index entry holds, also when it is wrapped in a record.
  abbrev pub target_of : Bytes → Bytes
  target_of bytes = elim (records.deserialize bytes) [ none ↦ bytes | some r ↦ r.value ]

  abbrev pub shown_at : Bytes → ℕ → Bytes → Option Bytes → Result (Option Row)
  shown_at table_name version target none = ok none
  shown_at table_name version target (some bytes) =
      visible_row records row_codec table_name version (from_utf8_lossy target) bytes

  abbrev pub follow : Bytes → ℕ → Option Bytes → Exec (Engine store) (Option Row)
  follow table_name version none = pure none
  follow table_name version (some target) = do
    bytes ← read_both world (target_of target)
    gets (λ s. shown_at table_name version target bytes)

  abbrev pub look_up : Bytes → ℕ → Option Bytes → Exec (Engine store) (Option Row)
  look_up table_name version none = pure none
  look_up table_name version (some key) = do
    target ← read_both world key
    follow table_name version target

  -- the row that the index names for the filter
  unfoldable pub index_lookup : Bytes → ℕ → Option Expr → Exec (Engine store) (Option Row)
  unfolding index_key read_both visible_row from_utf8_lossy
  index_lookup table_name version filter = look_up table_name version (index_key table_name filter)

  abbrev pub or_scan : Bytes → ℕ → Option Row → Exec (Engine store) (List Row)
  or_scan table_name version (some row) = pure (row ∷ [])
  or_scan table_name version none = gets (λ s. scan_all table_name version s)

  unfoldable pub scan_table_with_filter : Bytes → ℕ → Option Expr → Exec (Engine store) (List Row)
  unfolding index_lookup scan_all
  scan_table_with_filter table_name version filter = do
    indexed ← index_lookup table_name version filter
    or_scan table_name version indexed

  unfoldable pub scan_table : Bytes → ℕ → Exec (Engine store) (List Row)
  unfolding scan_table_with_filter
  scan_table table_name version = scan_table_with_filter table_name version none
