-- ===== src/Storage/Btree/Tree/RootSplit.antt =====
-- src/storage/btree.rs: the split of a root that is a leaf, and what it leaves.
use kssql.Common.{
  ℕ, suc, ◌<◌, ◌^◌, ◌≡◌, ◌≢◌, sym, ap, ◌∙◌, subst, some, [], ◌∷◌, Bytes, length, insert_at?,
  if◌then◌else◌, arith,
}
use kssql.Common.Order.{bytes_lt}
use kssql.Common.Result.{ok}
use kssql.Common.Exec.{Exec, gets, continue, ◌>>=◌, >>=-ok}
use kssql.Storage.Btree.Node.{NodeType, Node, leaf, internal, new_internal}
use kssql.Storage.Btree.Store.{Store, IsStore}
use kssql.Storage.Btree.Tree.{leaf_get, split_leaf, split_internal, split_child, split_root}
use kssql.Storage.Btree.Tree.Leaf.{IsLeaf}
use kssql.Storage.Btree.Tree.Split.{left_half, right_half, split_leaf_halves}

module _ (store : Store) where
  open store use {State, load, save, allocate, count, is_full}

  -- What the split of a root that is a leaf leaves: a root with one key over the two halves.
  pub record IsRootSplit (t : State) (root : ℕ) (top root' left right : Node) (left_id right_id : ℕ)
      (mid : Bytes) : Type 0 where
    pub kind : root'.node_type ≡ internal
    pub keys : root'.keys ≡ mid ∷ []
    pub children : root'.children ≡ left_id ∷ right_id ∷ []
    pub root_saved : load t root ≡ ok root'
    pub left_saved : load t left_id ≡ ok left
    pub right_saved : load t right_id ≡ ok right
    pub left_kind : left.node_type ≡ leaf
    pub right_kind : right.node_type ≡ leaf
    pub left_leaf : IsLeaf left
    pub right_leaf : IsLeaf right
    pub root_below : root < count t
    pub left_below : left_id < count t
    pub right_below : right_id < count t
    pub parted :
        (j : Bytes)
        → leaf_get j top ≡ (if bytes_lt j mid then leaf_get j left else leaf_get j right)

  split_child_leaf :
      (parent : Node) (i child_id : ℕ) (child : Node) (s : State)
      → load s child_id ≡ ok child
      → child.node_type ≡ leaf
      → split_child store parent i child_id s ≡ split_leaf store parent i child_id child s
  unfolding split_child
  split_child_leaf parent i child_id child s at kind =
      let by_kind : NodeType → Exec State Node = λ k. elim k [
        | leaf ↦ split_leaf store parent i child_id child
        | internal ↦ split_internal store parent i child_id child
      ] in
      rw (split_child, at) (ap (λ k. by_kind k s) kind)

  -- A node over one page.
  abbrev fork : ℕ → Node
  fork id = record new_internal { children = id ∷ [] }

  -- The two new entries of the parent.
  fork_grown :
      (id right_id : ℕ) (mid : Bytes) (node : Node)
      → insert_at? (fork id).keys 0 mid ≡ some node.keys
      → insert_at? (fork id).children 1 right_id ≡ some node.children
      → (node.keys ≡ mid ∷ []) × (node.children ≡ id ∷ right_id ∷ [])
  fork_grown id right_id mid node keys children = (cc, cc)

  -- After the split of the old root, which stands at `id`, the new root is saved.
  finish_root :
      (IsValid : State → Type 0) (laws : IsStore store IsValid) (s : State) (root id : ℕ)
      (top node : Node)
      → IsValid s
      → suc (count s) < 2 ^ 32
      → root < count s
      → id < count s
      → root ≢ id
      → load s id ≡ ok top
      → top.node_type ≡ leaf
      → IsLeaf top
      → 0 < length top.keys
      → (split_leaf store (fork id) 0 id top s).0 ≡ ok node
      → (save root node (split_leaf store (fork id) 0 id top s).1).0 ≡ ok tt
      → (mid : Bytes) × IsRootSplit
          (save root node (split_leaf store (fork id) 0 id top s).1).1
          root
          top
          node
          (left_half store top (count s))
          (right_half store top)
          id
          (count s)
          mid
        × IsValid (save root node (split_leaf store (fork id) 0 id top s).1).1
  finish_root IsValid laws s root id top node valid room old_root old_id apart at kind is_leaf
        some_key done saved =
      let (mid, halves, valid') =
        split_leaf_halves store IsValid laws (fork id) 0 id top s node valid room is_leaf some_key
          old_id done in
      let s' = (split_leaf store (fork id) 0 id top s).1 in
      let more = halves.same_count in
      let same = laws.count-save root node s' valid' saved (omega (arith, more, old_root)) in
      let grown = fork_grown id (count s) mid node halves.keys halves.children in
      (
        mid,
        record {
          kind = halves.parent_kind;
          keys = grown.0;
          children = grown.1;
          root_saved = laws.load-save root node s' valid' saved;
          left_saved =
              laws.load-save_ne root id node (left_half store top (count s)) s' valid' saved
                (λ e. apart (sym e)) (omega (arith, more, old_id)) halves.left_saved;
          right_saved =
              laws.load-save_ne root (count s) node (right_half store top) s' valid' saved
                (omega (arith, old_root)) (omega (arith, more)) halves.right_saved;
          left_kind = halves.left_kind ∙ kind;
          right_kind = halves.right_kind;
          left_leaf = halves.left_leaf;
          right_leaf = halves.right_leaf;
          root_below = omega (arith, same, more, old_root);
          left_below = omega (arith, same, more, old_id);
          right_below = omega (arith, same, more);
          parted = halves.parted;
        },
        laws.save-IsValid root node s' valid' saved (omega (arith, more, old_root)),
      )

  pub split_root_lem :
      (IsValid : State → Type 0) (laws : IsStore store IsValid) (s : State) (root : ℕ)
      (top root' : Node)
      → IsValid s
      → suc (suc (count s)) < 2 ^ 32
      → root < count s
      → top.node_type ≡ leaf
      → IsLeaf top
      → 0 < length top.keys
      → (split_root store root top s).0 ≡ ok root'
      → (mid : Bytes) × (id : ℕ) × IsRootSplit
          (split_root store root top s).1
          root
          top
          root'
          (left_half store top (suc (count s)))
          (right_half store top)
          id
          (suc (count s))
          mid
        × IsValid (split_root store root top s).1
  unfolding split_root
  split_root_lem IsValid laws s root top root' valid room old kind is_leaf some_key done =
      let write = λ (node : Node). save root node >>= λ (u : Unit {0}). gets (λ t. load t root) in
      let split = λ (id : ℕ) (u : Unit {0}). split_child store (fork id) 0 id >>= write in
      let (id, fresh, on1) = >>=-ok allocate (λ id. save id top >>= split id) s root' done in
      let s1 = (allocate s).1 in
      let (u, saved, on2) =
        >>=-ok (save id top) (split id) s1 root' (sym (ap (λ r. r.0) on1) ∙ done) in
      let s2 = (save id top s1).1 in
      let first : id ≡ count s = laws.allocate-count id s fresh in
      let c1 = laws.count-allocate id s valid (omega (arith, room)) fresh in
      let valid1 = laws.allocate-IsValid id s valid (omega (arith, room)) fresh in
      let c2 : count s2 ≡ suc (count s) =
        laws.count-save id top s1 valid1 saved (omega (arith, c1, first)) ∙ c1 in
      let at = laws.load-save id top s1 valid1 saved in
      let as_leaf = split_child_leaf (fork id) 0 id top s2 at kind in
      let leaf_run : split_root store root top s
          ≡ (split_leaf store (fork id) 0 id top >>= write) s2 =
        on1 ∙ on2 ∙ ap (λ r. continue r.0 write r.1) as_leaf in
      let (node, splits, on3) =
        >>=-ok (split_leaf store (fork id) 0 id top) write s2 root'
          (sym (ap (λ r. r.0) leaf_run) ∙ done) in
      let s3 = (split_leaf store (fork id) 0 id top s2).1 in
      let (v, put, on4) =
        >>=-ok (save root node) (λ (u : Unit {0}). gets (λ t. load t root)) s3 root'
          (sym (ap (λ r. r.0) (leaf_run ∙ on3)) ∙ done) in
      let t = (save root node s3).1 in
      let whole : split_root store root top s ≡ (load t root, t) = leaf_run ∙ on3 ∙ on4 in
      let valid2 = laws.save-IsValid id top s1 valid1 saved (omega (arith, c1, first)) in
      let (mid, out, valid') =
        finish_root IsValid laws s2 root id top node valid2 (omega (arith, c2, room))
          (omega (arith, c2, old)) (omega (arith, c2, first)) (omega (arith, old, first)) at kind
          is_leaf some_key splits put in
      let same : ok root' ≡ ok node = sym done ∙ ap (λ r. r.0) whole ∙ out.root_saved in
      let e : node ≡ root' = cc in
      (
        mid,
        id,
        subst
            (λ n.
              IsRootSplit (split_root store root top s).1 root top n
                (left_half store top (suc (count s))) (right_half store top) id (suc (count s)) mid)
            e
            (subst
              (λ c.
                IsRootSplit (split_root store root top s).1 root top node (left_half store top c)
                  (right_half store top) id c mid)
              c2
              (subst
                (λ x.
                  IsRootSplit x root top node (left_half store top (count s2))
                    (right_half store top) id (count s2) mid)
                (sym (ap (λ r. r.1) whole)) out)),
        subst IsValid (sym (ap (λ r. r.1) whole)) valid',
      )
