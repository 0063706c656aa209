-- ===== src/Storage/Btree/Tree/Insertion.antt =====
-- src/storage/btree.rs: what lookups return after an insertion whose path meets no full node.
use kssql.Common.{
  ℕ, ◌≡◌, ◌≢◌, refl, sym, ap, ◌∙◌, false, some, Bytes, bytes_eq, bytes_eq_iff, ◌==◌, ==_iff,
  if◌then◌else◌, arith, inl, inr, Bool-cases,
}
use kssql.Common.Result.{ok}
use kssql.Common.Exec.{gets, ◌>>=◌, >>=-ok}
use kssql.Storage.Btree.Node.{Node, leaf}
use kssql.Storage.Btree.Store.{Store, IsStore}
use kssql.Storage.Btree.Tree.{leaf_get, get_loop, insert_non_full, insert}
use kssql.Storage.Btree.Tree.Leaf.{IsLeaf, leaf_get-leaf_insert}
use kssql.Storage.Btree.Tree.Route.{Route, at_leaf, down, get_loop-Route, Route-leaf}
use kssql.Storage.Btree.Tree.Written.{IsRoomy, IsWritten, insert_non_full-IsWritten, kinds_differ}

module _ (store : Store) where
  open store use {State, load, save, count, is_full}

  -- The lookup of a key that has a path, after a leaf has been written.
  get_loop-IsWritten :
      (P : Node → Type 0) (s t : State) (page : ℕ) (node node' : Node) (j : Bytes) (page_j : ℕ)
      (node_j : Node) {start depth : ℕ}
      → IsWritten store s t page node'
      → load s page ≡ ok node
      → node.node_type ≡ leaf
      → node'.node_type ≡ leaf
      → Route store P s j page_j node_j start depth
      → get_loop store depth t j start ≡ leaf_get j (if page_j == page then node' else node_j)
  unfolding get_loop
  get_loop-IsWritten P s t page node node' j page_j node_j w at_page outer outer'
        (at_leaf {start = start} same old at kind) =
      elim (Bool-cases (page_j == page)) [
        | inl here ↦
            let e : start ≡ page = same ∙ (==_iff page_j page).0 here in
            let now : load t start ≡ ok node' = ap (load t) e ∙ w.written in
            rw (get_loop, now, outer', here) refl
        | inr away ↦
            let now : load t start ≡ ok node_j =
              w.kept start node_j (λ e. absurd (ground (arith, same, e, away, ==_iff page_j page)))
                old at in
            rw (get_loop, now, kind, away) refl
      ]
  get_loop-IsWritten P s t page node node' j page_j node_j w at_page outer outer'
        (down {start = start} inner below old at kind next there ok_below rest) =
      let now : load t start ≡ ok inner =
        w.kept start inner (kinds_differ store s start page inner node at at_page kind outer) old
          at in
      rw (get_loop, now, kind, next)
        (get_loop-IsWritten P s t page node node' j page_j node_j w at_page outer outer' rest)

  -- In the leaf of another key, nothing has changed for it.
  other_leaf :
      (s : State) (page : ℕ) (node node' : Node) (key value j : Bytes) (page_j : ℕ) (node_j : Node)
      → j ≢ key
      → load s page ≡ ok node
      → load s page_j ≡ ok node_j
      → ((k : Bytes)
          → leaf_get k node' ≡ (if bytes_eq key k then ok (some value) else leaf_get k node))
      → leaf_get j (if page_j == page then node' else node_j) ≡ leaf_get j node_j
  other_leaf s page node node' key value j page_j node_j differs at there found =
      elim (Bool-cases (page_j == page)) [
        | inr away ↦ rw away refl
        | inl here ↦
            let e : page_j ≡ page = (==_iff page_j page).0 here in
            let same : ok node_j ≡ ok node = sym there ∙ ap (load s) e ∙ at in
            let f : node_j ≡ node = cc in
            elim (Bool-cases (bytes_eq key j)) [
              | inl equal ↦ absurd (differs (sym ((bytes_eq_iff key j).0 equal)))
              | inr apart ↦ rw here (found j ∙ rw apart (ap (leaf_get j) (sym f)))
            ]
      ]

  -- What the lookups find after the descent of an insertion along a path without full nodes.
  pub get_loop-insert_non_full :
      (IsValid : State → Type 0) (laws : IsStore store IsValid) (s : State) (root : ℕ) (top : Node)
      (key value : Bytes) (page : ℕ) (node : Node) (depth : ℕ)
      → IsValid s
      → load s root ≡ ok top
      → Route store (IsRoomy store) s key page node root depth
      → IsLeaf node
      → (insert_non_full store depth root top key value s).0 ≡ ok tt
      → (get_loop store depth (insert_non_full store depth root top key value s).1 key root
          ≡ ok (some value))
        × ((j : Bytes) (page_j : ℕ) (node_j : Node) (d : ℕ)
            → j ≢ key
            → Route store (λ n. Unit) s j page_j node_j root d
            → get_loop store d (insert_non_full store depth root top key value s).1 j root
              ≡ get_loop store d s j root)
  get_loop-insert_non_full IsValid laws s root top key value page node depth valid at path is_leaf
        done =
      let (node', put, is_leaf', found, kind', link) =
        leaf_get-leaf_insert key value node is_leaf in
      let (old, at_page, outer) = Route-leaf store (IsRoomy store) s key page node path in
      let w =
        (insert_non_full-IsWritten store IsValid laws s key value page node node' top valid path put
          at done).0 in
      let t = (insert_non_full store depth root top key value s).1 in
      (
        get_loop-IsWritten (IsRoomy store) s t page node node' key page node w at_page outer
              (kind' ∙ outer) path
            ∙ rw ((==_iff page page).1 refl) (found key ∙ rw ((bytes_eq_iff key key).1 refl) refl),
        λ j page_j node_j d differs path_j.
            get_loop-IsWritten (λ n. Unit) s t page node node' j page_j node_j w at_page outer
              (kind' ∙ outer) path_j
            ∙ other_leaf s page node node' key value j page_j node_j differs at_page
                (Route-leaf store (λ n. Unit) s j page_j node_j path_j).1 found
            ∙ sym (get_loop-Route store (λ n. Unit) s j page_j node_j path_j),
      )

  -- Over a store that keeps its laws, from a valid state: if the root is not full, the path of the key meets no full node
  -- and ends in a leaf whose keys rise and match its values, and the insertion succeeds, then the
  -- key is found with the new value, and every other key that has a path is found as before.
  pub get_loop-insert :
      (IsValid : State → Type 0) (laws : IsStore store IsValid) (s : State) (root : ℕ) (top : Node)
      (key value : Bytes) (page : ℕ) (node : Node) (depth : ℕ)
      → IsValid s
      → load s root ≡ ok top
      → is_full top ≡ false
      → Route store (IsRoomy store) s key page node root depth
      → IsLeaf node
      → (insert store depth root key value s).0 ≡ ok tt
      → (get_loop store depth (insert store depth root key value s).1 key root ≡ ok (some value))
        × ((j : Bytes) (page_j : ℕ) (node_j : Node) (d : ℕ)
            → j ≢ key
            → Route store (λ n. Unit) s j page_j node_j root d
            → get_loop store d (insert store depth root key value s).1 j root
              ≡ get_loop store d s j root)
  unfolding insert
  get_loop-insert IsValid laws s root top key value page node depth valid at roomy path is_leaf
        done =
      let run : insert store depth root key value s
          ≡ (insert_non_full store depth root top key value >>= λ _. gets store.sync) s =
        rw (insert, at, roomy) refl in
      let (u, fine, on) =
        >>=-ok (insert_non_full store depth root top key value) (λ _. gets store.sync) s tt
          (sym (ap (λ r. r.0) run) ∙ done) in
      let last : (insert store depth root key value s).1
          ≡ (insert_non_full store depth root top key value s).1 =
        ap (λ r. r.1) (run ∙ on) in
      let (here, others) =
        get_loop-insert_non_full IsValid laws s root top key value page node depth valid at path
          is_leaf fine in
      (
        ap (λ t. get_loop store depth t key root) last ∙ here,
        λ j page_j node_j d differs path_j.
            ap (λ u. get_loop store d u j root) last ∙ others j page_j node_j d differs path_j,
      )
