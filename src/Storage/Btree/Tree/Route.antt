-- ===== src/Storage/Btree/Tree/Route.antt =====
-- src/storage/btree.rs: the path of a key through the tree, and the lookup along it.
use kssql.Common.{ℕ, suc, ◌<◌, ◌≡◌, refl, sym, some, Bytes, get_elem?}
use kssql.Common.Result.{ok}
use kssql.Storage.Btree.Node.{Node, leaf, internal, child_index}
use kssql.Storage.Btree.Store.{Store}
use kssql.Storage.Btree.Tree.{leaf_get, get_loop}

-- From page `start` the lookup of `key` comes to the leaf `node` at `page`, over so many nodes at most.
-- All of them are pages of the store, and every one below the first satisfies `P`.
pub data Route (store : Store) (P : Node → Type 0) (s : store.State) (key : Bytes) (page : ℕ)
    (node : Node) : ℕ → ℕ → Type 0 where
  at_leaf :
      {start depth : ℕ}
      → start ≡ page
      → start < store.count s
      → store.load s start ≡ ok node
      → node.node_type ≡ leaf
      → Route store P s key page node start (suc depth)
  down :
      {start child depth : ℕ} (inner below : Node)
      → start < store.count s
      → store.load s start ≡ ok inner
      → inner.node_type ≡ internal
      → get_elem? inner.children (child_index inner key) ≡ some child
      → store.load s child ≡ ok below
      → P below
      → Route store P s key page node child depth
      → Route store P s key page node start (suc depth)

module _ (store : Store) (P : Node → Type 0) where
  -- A lookup along a path is a lookup in its leaf.
  pub get_loop-Route :
      (s : store.State) (key : Bytes) (page : ℕ) (node : Node) {start depth : ℕ}
      → Route store P s key page node start depth
      → get_loop store depth s key start ≡ leaf_get key node
  unfolding get_loop
  get_loop-Route s key page node (at_leaf same old at kind) = rw (get_loop, at, kind) refl
  get_loop-Route s key page node (down inner below old at kind next there ok_below rest) =
      rw (get_loop, at, kind, next) (get_loop-Route s key page node rest)

  -- The leaf of a path is a page of the store.
  pub Route-leaf :
      (s : store.State) (key : Bytes) (page : ℕ) (node : Node) {start depth : ℕ}
      → Route store P s key page node start depth
      → (page < store.count s) × (store.load s page ≡ ok node) × (node.node_type ≡ leaf)
  Route-leaf s key page node (at_leaf same old at kind) =
      (rw (sym same) old, rw (sym same) at, kind)
  Route-leaf s key page node (down inner below old at kind next there ok_below rest) =
      Route-leaf s key page node rest
