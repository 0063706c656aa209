-- ===== src/Storage/Btree/Tree/RootInsertion.antt =====
-- src/storage/btree.rs: an insertion into a full root that is a leaf: the root is split first.
use kssql.Common.{
  ℕ, suc, ◌<◌, ◌^◌, ◌≡◌, ◌≢◌, refl, sym, ap, ◌∙◌, true, false, Bool-cases, inl, inr, some, [], ◌∷◌,
  Bytes, length, get_elem?, bytes_eq_iff, if◌then◌else◌, arith,
}
use kssql.Common.Order.{bytes_lt, lt_irrefl}
use kssql.Common.Result.{ok}
use kssql.Common.Exec.{gets, ◌>>=◌, >>=-ok}
use kssql.Storage.Btree.Node.{Node, leaf, child_index, binary_search}
use kssql.Storage.Btree.Store.{Store, IsStore}
use kssql.Storage.Btree.Tree.{leaf_get, get_loop, insert_non_full, split_root, insert}
use kssql.Storage.Btree.Tree.Leaf.{IsLeaf}
use kssql.Storage.Btree.Tree.Route.{Route, at_leaf, down, get_loop-Route}
use kssql.Storage.Btree.Tree.Split.{left_half, right_half}
use kssql.Storage.Btree.Tree.Written.{IsRoomy}
use kssql.Storage.Btree.Tree.Insertion.{get_loop-insert_non_full}
use kssql.Storage.Btree.Tree.RootSplit.{IsRootSplit, split_root_lem}

-- A node with one key has the smaller keys on its left and the others on its right.
child_of_two :
    (node : Node) (mid j : Bytes) (left right : ℕ)
    → node.keys ≡ mid ∷ []
    → node.children ≡ left ∷ right ∷ []
    → get_elem? node.children (child_index node j) ≡ some (if bytes_lt j mid then left else right)
unfolding child_index binary_search
child_of_two node mid j left right keys children =
    ground (arith, keys, children, bytes_eq_iff mid j, lt_irrefl mid)

module _ (store : Store) where
  open store use {State, load, save, allocate, count, is_full}

  -- The two ways from the new root.
  root_Route :
      (P : Node → Type 0) (t : State) (root : ℕ) (top root' left right : Node)
      (left_id right_id : ℕ) (mid j : Bytes) (d : ℕ)
      → IsRootSplit store t root top root' left right left_id right_id mid
      → P left
      → P right
      → (page : ℕ) × (node : Node) × Route store P t j page node root (suc (suc d))
        × IsLeaf node
        × (leaf_get j top ≡ leaf_get j node)
  root_Route P t root top root' left right left_id right_id mid j d r ok_left ok_right =
      let next = child_of_two root' mid j left_id right_id r.keys r.children in
      elim (Bool-cases (bytes_lt j mid)) [
        | inl before ↦ (
          left_id,
          left,
          down root' left r.root_below r.root_saved r.kind
              (next ∙ ap (λ b. some (if b then left_id else right_id)) before) r.left_saved ok_left
              (at_leaf refl r.left_below r.left_saved r.left_kind),
          r.left_leaf,
          r.parted j ∙ ap (λ b. if b then leaf_get j left else leaf_get j right) before,
        )
        | inr from ↦ (
          right_id,
          right,
          down root' right r.root_below r.root_saved r.kind
              (next ∙ ap (λ b. some (if b then left_id else right_id)) from) r.right_saved ok_right
              (at_leaf refl r.right_below r.right_saved r.right_kind),
          r.right_leaf,
          r.parted j ∙ ap (λ b. if b then leaf_get j left else leaf_get j right) from,
        )
      ]

  leaf_lookup :
      (s : State) (root : ℕ) (top : Node) (j : Bytes) (d : ℕ)
      → load s root ≡ ok top
      → top.node_type ≡ leaf
      → get_loop store (suc d) s j root ≡ leaf_get j top
  unfolding get_loop
  leaf_lookup s root top j d at kind = rw (get_loop, at, kind) refl

  -- Over a store that keeps its laws, from a valid state with two page ids left: if the root is a full leaf
  -- with a key at least, whose keys rise and match its values, neither half of it is full, and the insertion
  -- succeeds, then the key is found with the new value, and every other key is found as it was in the leaf.
  pub get_loop-insert_full_root :
      (IsValid : State → Type 0) (laws : IsStore store IsValid) (s : State) (root : ℕ) (top : Node)
      (key value : Bytes) (d : ℕ)
      → IsValid s
      → suc (suc (count s)) < 2 ^ 32
      → root < count s
      → load s root ≡ ok top
      → is_full top ≡ true
      → top.node_type ≡ leaf
      → IsLeaf top
      → 0 < length top.keys
      → is_full (left_half store top (suc (count s))) ≡ false
      → is_full (right_half store top) ≡ false
      → (insert store (suc (suc d)) root key value s).0 ≡ ok tt
      → (get_loop store (suc (suc d)) (insert store (suc (suc d)) root key value s).1 key root
          ≡ ok (some value))
        × ((j : Bytes)
            → j ≢ key
            → get_loop store (suc (suc d)) (insert store (suc (suc d)) root key value s).1 j root
              ≡ get_loop store (suc (suc d)) s j root)
  unfolding insert
  get_loop-insert_full_root IsValid laws s root top key value d valid room old at full kind is_leaf
        some_key left_roomy right_roomy done =
      let descend = λ (top' : Node). insert_non_full store (suc (suc d)) root top' key value in
      let finish = λ (top' : Node). descend top' >>= λ (u : Unit {0}). gets store.sync in
      let run : insert store (suc (suc d)) root key value s
          ≡ (split_root store root top >>= finish) s =
        rw (insert, at, full) refl in
      let (root', splits, on) =
        >>=-ok (split_root store root top) finish s tt (sym (ap (λ r. r.0) run) ∙ done) in
      let t = (split_root store root top s).1 in
      let (u, fine, on') =
        >>=-ok (descend root') (λ (u : Unit {0}). gets store.sync) t tt
          (sym (ap (λ r. r.0) (run ∙ on)) ∙ done) in
      let last : (insert store (suc (suc d)) root key value s).1 ≡ (descend root' t).1 =
        ap (λ r. r.1) (run ∙ on ∙ on') in
      let (mid, id, r, valid') =
        split_root_lem store IsValid laws s root top root' valid room old kind is_leaf some_key
          splits in
      let left = left_half store top (suc (count s)) in
      let right = right_half store top in
      let (page, node, path, node_leaf, in_node) =
        root_Route (IsRoomy store) t root top root' left right id (suc (count s)) mid key d r
          left_roomy right_roomy in
      let (here, others) =
        get_loop-insert_non_full store IsValid laws t root root' key value page node (suc (suc d))
          valid' r.root_saved path node_leaf fine in
      (
        ap (λ x. get_loop store (suc (suc d)) x key root) last ∙ here,
        λ j differs.
            let (page_j, node_j, path_j, leaf_j, in_node_j) =
              root_Route (λ n. Unit {0}) t root top root' left right id (suc (count s)) mid j d r tt
                tt in
            ap (λ x. get_loop store (suc (suc d)) x j root) last
            ∙ others j page_j node_j (suc (suc d)) differs path_j
            ∙ get_loop-Route store (λ n. Unit {0}) t j page_j node_j path_j
            ∙ sym in_node_j
            ∙ sym (leaf_lookup s root top j (suc d) at kind),
      )
