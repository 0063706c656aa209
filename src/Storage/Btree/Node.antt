-- ===== src/Storage/Btree/Node.antt =====
-- src/storage/btree.rs: the nodes, their search and their encoding in a page.
use kssql.Common.{
  ℕ, suc, ◌+◌, ◌-◌, ◌*◌, ◌/◌, Bool, Option, none, some, List, [], ◌∷◌, ◌++◌, Bytes, zeros, length,
  drop, ltb, leb, bytes_eq, if◌then◌else◌,
}
use kssql.Common.Int.{ℤ}
use kssql.Common.Order.{bytes_lt}
use kssql.Common.Result.{Result, ok, err, encode_failed, decode_failed, node_too_large}
use kssql.Storage.Codec.{Codec}
use kssql.Storage.Pager.{page_size}

pub data NodeType : Type 0 where
  internal leaf : NodeType

pub record Node : Type 0 where
  pub node_type : NodeType
  pub keys : List Bytes
  pub children : List ℕ
  pub values : List Bytes
  pub next_leaf : Option ℕ

pub record Record : Type 0 where
  pub value : Bytes
  pub version : ℕ
  pub is_deleted : Bool
  pub timestamp : ℤ

abbrev pub new_leaf : Node
new_leaf = record { node_type = leaf; keys = []; children = []; values = []; next_leaf = none }

abbrev pub new_internal : Node
new_internal = record {
  node_type = internal;
  keys = [];
  children = [];
  values = [];
  next_leaf = none;
}

-- The result of `binary_search`: `Ok` of the index of the key, or `Err` of where it belongs.
pub data Search : Type 0 where
  found : ℕ → Search
  absent : ℕ → Search

abbrev pub shift : Search → Search
shift (found i) = found (suc i)
shift (absent i) = absent (suc i)

-- On sorted keys without repetition, which the tree keeps, the standard library fixes this result.
unfoldable pub binary_search : List Bytes → Bytes → Search
binary_search [] key = absent 0
binary_search (k ∷ keys) key =
    let rest = binary_search keys key in
    if bytes_eq k key then found 0 else (if bytes_lt key k then absent 0 else shift rest)

-- `match node.keys.binary_search(&key)` for a child: right of an equal key.
abbrev pub child_of : Search → ℕ
child_of (found i) = i + 1
child_of (absent i) = i

unfoldable pub child_index : Node → Bytes → ℕ
child_index node key =
    let i = child_of (binary_search node.keys key) in
    if leb (length node.children) i then length node.children - 1 else i

module _ (codec : Codec Node) where
  abbrev pub page_of : Option Bytes → Result Bytes
  page_of none = err encode_failed
  page_of (some encoded) =
      if ltb (page_size - 4) (length encoded)
      then err node_too_large
      else ok (zeros 4 ++ (encoded ++ zeros (page_size - 4 - length encoded)))

  unfoldable pub to_bytes : Node → Result Bytes
  to_bytes node = page_of (codec.serialize node)

  abbrev pub node_of : Option Node → Result Node
  node_of none = err decode_failed
  node_of (some node) = ok node

  unfoldable pub from_bytes : Bytes → Result Node
  from_bytes page = node_of (codec.deserialize (drop 4 page))

  -- `serialized_size(self).unwrap_or(0)`
  abbrev pub size_of : Option Bytes → ℕ
  size_of none = 0
  size_of (some encoded) = length encoded

  unfoldable pub is_full : Node → Bool
  is_full node = ltb (page_size * 3 / 4) (size_of (codec.serialize node))
