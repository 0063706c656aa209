-- ===== src/Storage/Btree/Tree.antt =====
-- src/storage/btree.rs: `get`, `insert`, `insert_non_full` and `split_child` over the nodes of a
-- store. An index out of bounds is the error `panic`.
pub mod Leaf
pub mod Halves
pub mod Split
pub mod RootSplit
pub mod RootInsertion
pub mod Route
pub mod Written
pub mod Insertion
use kssql.Common.{
  ℕ, zero, suc, ◌+◌, ◌-◌, ◌*◌, ◌/◌, ◌≡◌, Bool, true, false, Option, none, some, List, [], ◌∷◌, ◌++◌,
  Bytes, length, get_elem?, set?, insert_at?, erase_at?, split_off?, if◌then◌else◌,
}
use kssql.Common.Order.{bytes_lt}
use kssql.Common.Result.{Result, ok, err, panic, out_of_fuel}
use kssql.Common.Exec.{Exec, pure, gets, ◌>>=◌, ◌>>◌}
use kssql.Storage.Btree.Node.{
  Node, leaf, internal, new_leaf, new_internal, Search, found, absent, binary_search, child_index,
}
use kssql.Storage.Btree.Store.{Store}

abbrev pub or_panic {ℓ} : {A : Type ℓ} → Option A → Result A
or_panic none = err panic
or_panic (some a) = ok a

-- What the two vectors become when `key` is put into a leaf.
abbrev pub put_at : Search → Bytes → Bytes → Node → Option Node
put_at (found i) key value node = elim (set? node.values i value) [
  | none ↦ none
  | some vs ↦ some (record node { values = vs })
]
put_at (absent i) key value node = elim (insert_at? node.keys i key) [
  | none ↦ none
  | some ks ↦ elim (insert_at? node.values i value) [
    | none ↦ none
    | some vs ↦ some (record node { keys = ks; values = vs })
  ]
]

-- the leaf's branch of `insert_non_full`, up to `save_node`
unfoldable pub leaf_insert : Bytes → Bytes → Node → Option Node
unfolding binary_search
leaf_insert key value node = put_at (binary_search node.keys key) key value node

-- the leaf's branch of `get`
abbrev pub value_at : Search → List Bytes → Result (Option Bytes)
value_at (found i) values = elim (get_elem? values i) [ none ↦ err panic | some v ↦ ok (some v) ]
value_at (absent i) values = ok none

unfoldable pub leaf_get : Bytes → Node → Result (Option Bytes)
unfolding binary_search
leaf_get key node = value_at (binary_search node.keys key) node.values

module _ (store : Store) where
  open store use {State, load, save, allocate, sync, is_full}

  abbrev pub lift {ℓ} : {A : Type ℓ} → Result A → State → Result A × State
  lift r s = (r, s)

  -- The loop of `get`; it has no bound of its own.
  unfoldable pub get_loop : ℕ → State → Bytes → ℕ → Result (Option Bytes)
  unfolding leaf_get child_index
  get_loop zero s key page_id = err out_of_fuel
  get_loop (suc fuel) s key page_id = elim (load s page_id) [
    | err e ↦ err e
    | ok node ↦ elim node.node_type [
      | leaf ↦ leaf_get key node
      | internal ↦ elim (get_elem? node.children (child_index node key)) [
        | none ↦ err panic
        | some child_id ↦ get_loop fuel s key child_id
      ]
    ]
  ]

  -- The end of `split_child`: the parent gets the key and the new child, and both halves are saved.
  unfoldable pub finish_split : Node → ℕ → Bytes → ℕ → Node → ℕ → Node → Exec State Node
  finish_split parent i mid_key new_node_id new_node child_id child = do
    keys ← lift (or_panic (insert_at? parent.keys i mid_key))
    children ← lift (or_panic (insert_at? parent.children (i + 1) new_node_id))
    save new_node_id new_node
    save child_id child
    pure (record parent { keys = keys; children = children })

  unfoldable pub split_leaf : Node → ℕ → ℕ → Node → Exec State Node
  split_leaf parent i child_id child = do
    let mid = length child.keys / 2
    mid_key ← lift (or_panic (get_elem? child.keys mid))
    ks ← lift (or_panic (split_off? child.keys mid))
    vs ← lift (or_panic (split_off? child.values mid))
    new_node_id ← allocate
    finish_split parent i mid_key new_node_id
        (record new_leaf { keys = ks.1; values = vs.1; next_leaf = child.next_leaf }) child_id
        (record child { keys = ks.0; values = vs.0; next_leaf = some new_node_id })

  unfoldable pub split_internal : Node → ℕ → ℕ → Node → Exec State Node
  split_internal parent i child_id child = do
    let mid = length child.keys / 2
    removed ← lift (or_panic (erase_at? child.keys mid))
    ks ← lift (or_panic (split_off? removed.1 mid))
    cs ← lift (or_panic (split_off? child.children (mid + 1)))
    new_node_id ← allocate
    finish_split parent i removed.0 new_node_id
        (record new_internal { keys = ks.1; children = cs.1 }) child_id
        (record child { keys = ks.0; children = cs.0 })

  unfoldable pub split_child : Node → ℕ → ℕ → Exec State Node
  unfolding split_leaf split_internal finish_split
  split_child parent i child_id = do
    child ← gets (λ s. load s child_id)
    elim child.node_type [
      | leaf ↦ split_leaf parent i child_id child
      | internal ↦ split_internal parent i child_id child
    ]

  -- `if child.is_full()`: the node after the split, and the child to go on with
  unfoldable pub choose_child : Bytes → ℕ → Node → ℕ → Node → Exec State (Node × ℕ × Node)
  unfolding split_child
  choose_child key i node child_id child =
      if is_full child
      then (do
        node' ← split_child node i child_id
        bound ← lift (or_panic (get_elem? node'.keys i))
        let i' = if bytes_lt bound key then i + 1 else i
        child_id' ← lift (or_panic (get_elem? node'.children i'))
        child' ← gets (λ s. load s child_id')
        pure (node', child_id', child'))
      else pure (node, child_id, child)

  unfoldable pub insert_non_full : ℕ → ℕ → Node → Bytes → Bytes → Exec State (Unit {0})
  unfolding leaf_insert child_index choose_child
  insert_non_full zero page_id node key value s = (err out_of_fuel, s)
  insert_non_full (suc fuel) page_id node key value s = elim node.node_type [
    | leaf ↦ (do node' ← lift (or_panic (leaf_insert key value node)); save page_id node') s
    | internal ↦
        (do
          let i = child_index node key
          child_id ← lift (or_panic (get_elem? node.children i))
          child ← gets (λ t. load t child_id)
          chosen ← choose_child key i node child_id child
          insert_non_full fuel chosen.1 chosen.2 key value
          save page_id chosen.0)
          s
  ]

  unfoldable pub split_root : ℕ → Node → Exec State Node
  unfolding split_child
  split_root root_id root = do
    old_root_id ← allocate
    save old_root_id root
    new_root ← split_child (record new_internal { children = old_root_id ∷ [] }) 0 old_root_id
    save root_id new_root
    gets (λ s. load s root_id)

  unfoldable pub insert : ℕ → ℕ → Bytes → Bytes → Exec State (Unit {0})
  unfolding insert_non_full split_root
  insert fuel root_id key value = do
    root ← gets (λ s. load s root_id)
    root' ← (if is_full root then split_root root_id root else pure root)
    insert_non_full fuel root_id root' key value
    gets sync
