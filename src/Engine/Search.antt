-- ===== src/Engine/Search.antt =====
-- src/parser/engine.rs: FLUSH, and `universal_search`, the walk over the tree for a text.
pub mod Dropped
use kssql.Common.{
  ℕ, zero, suc, Bool, true, false, Option, none, some, List, [], ◌∷◌, ◌++◌, Bytes, replicate,
  if◌then◌else◌,
}
use kssql.Common.Result.{Result, Error, ok, err, panic, decode_failed, out_of_fuel}
use kssql.Common.Text.{starts_with, from_utf8_lossy}
use kssql.Storage.Codec.{Codec}
use kssql.Storage.Btree.Node.{Record, Node, leaf, internal}
use kssql.Storage.Wal.Queue.{Wal}
use kssql.Engine.State.{Engine, World, wal_flush}
use kssql.Engine.Query.{contains_text}

-- "Universal Search Results for: '" with the text and "'"
abbrev pub search_head : Bytes → Bytes
search_head query =
    (85 ∷ 110 ∷ 105 ∷ 118 ∷ 101 ∷ 114 ∷ 115 ∷ 97 ∷ 108 ∷ 32 ∷ 83 ∷ 101 ∷ 97 ∷ 114 ∷ 99 ∷ 104 ∷ 32
      ∷ 82 ∷ 101 ∷ 115 ∷ 117 ∷ 108 ∷ 116 ∷ 115 ∷ 32 ∷ 102 ∷ 111 ∷ 114 ∷ 58 ∷ 32 ∷ 39 ∷ [])
    ++ (query ++ 39 ∷ [])

-- `format!("Match in Key {}: {}", key, row)`
abbrev pub match_text : Bytes → Bytes → Bytes
match_text key row =
    (77 ∷ 97 ∷ 116 ∷ 99 ∷ 104 ∷ 32 ∷ 105 ∷ 110 ∷ 32 ∷ 75 ∷ 101 ∷ 121 ∷ 32 ∷ [])
    ++ (key ++ 58 ∷ 32 ∷ row)

-- `join("\n")`
abbrev pub join_lines : List Bytes → Bytes
join_lines [] = []
join_lines (v ∷ []) = v
join_lines (v ∷ w ∷ rest) = v ++ 10 ∷ join_lines (w ∷ rest)

-- A page that cannot be read ends the search; one that cannot be decoded is an error.
abbrev pub after_failure : Error → List Bytes → Result (List Bytes)
after_failure decode_failed results = err decode_failed
after_failure _ results = ok results

abbrev pub first_value : List Bytes → Result Bytes
first_value [] = err panic
first_value (v ∷ vs) = ok v

abbrev pub other_values : List Bytes → List Bytes
other_values [] = []
other_values (v ∷ vs) = vs

module _ (records : Codec Record) (query : Bytes) where
  -- What a key of a leaf with its record adds to the results.
  abbrev pub search_entry : Bytes → Result Bytes → Result (List Bytes)
  search_entry key (err e) = err e
  search_entry key (ok bytes) = elim (records.deserialize bytes) [
    | none ↦ err decode_failed
    | some r ↦
        if r.is_deleted
        then ok []
        else (if contains_text query (from_utf8_lossy r.value)
            then ok (match_text (from_utf8_lossy key) (from_utf8_lossy r.value) ∷ [])
            else ok [])
  ]

  -- Keys that begin with two underscores are passed over.
  unfoldable pub search_leaf : List Bytes → List Bytes → Result (List Bytes)
  unfolding from_utf8_lossy
  search_leaf [] values = ok []
  search_leaf (key ∷ keys) values =
      let rest = search_leaf keys (other_values values) in
      elim (if starts_with (95 ∷ 95 ∷ []) (from_utf8_lossy key)
        then ok []
        else search_entry key (first_value values)) [
          | err e ↦ err e
          | ok here ↦ elim rest [ err e ↦ err e | ok more ↦ ok (here ++ more) ]
        ]

module _ (world : World) (records : Codec Record) where
  open world use {store}

  unfoldable pub search_pages : Bytes → ℕ → store.State → ℕ → List Bytes → Result (List Bytes)
  unfolding search_leaf
  search_pages query zero pages page_id results = err out_of_fuel
  search_pages query (suc fuel) pages page_id results = elim (store.load pages page_id) [
    | err e ↦ after_failure e results
    | ok node ↦ elim node.node_type [
      | leaf ↦ elim (search_leaf records query node.keys node.values) [
        | err e ↦ err e
        | ok here ↦ elim node.next_leaf [
          | none ↦ ok (results ++ here)
          | some next ↦ search_pages query fuel pages next (results ++ here)
        ]
      ]
      | internal ↦ elim node.children [
        | [] ↦ ok results
        | child ∷ children ↦ search_pages query fuel pages child results
      ]
    ]
  ]

  -- `fuel` is how many pages are visited at most.
  unfoldable pub universal_search : Bytes → ℕ → Engine store → Result Bytes
  unfolding search_pages
  universal_search query fuel engine =
      elim (search_pages query fuel engine.btree.pages 0
        (search_head query ∷ replicate 40 45 ∷ [])) [
          | err e ↦ err e
          | ok results ↦ ok (join_lines results)
        ]

module _ (world : World) where
  open world use {store}

  -- FLUSH: a flush, and then all that is left in the queue is popped and dropped.
  unfoldable pub flush_command : Engine store → Engine store
  unfolding wal_flush
  flush_command engine =
      let engine' = (wal_flush world engine).1 in
      record engine' {
        btree = record engine'.btree { wal = record engine'.btree.wal { queue = [] } };
      }
