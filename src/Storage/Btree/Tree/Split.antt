-- ===== src/Storage/Btree/Tree/Split.antt =====
-- src/storage/btree.rs: `split_child` of a leaf.
use kssql.Common.{
  ℕ, suc, ◌+◌, ◌/◌, ◌<◌, ◌^◌, ◌≡◌, ◌≢◌, ◌++◌, All, inl, inr, refl, some, Bytes, length, get_elem?,
  insert_at?, take, drop, length-take, length-drop, arith, if◌then◌else◌,
}
use kssql.Common.Order.{bytes_lt, ◌≺◌}
use kssql.Common.Result.{ok, Result-cases}
use kssql.Storage.Btree.Node.{Node, new_leaf}
use kssql.Storage.Btree.Store.{Store, IsStore}
use kssql.Storage.Btree.Tree.{leaf_get, split_leaf, finish_split}
use kssql.Storage.Btree.Tree.Leaf.{IsLeaf, leaf_get_lem}
use kssql.Storage.Btree.Tree.Halves.{
  split_off?_lem, get_elem?_lem, take-IsRising, drop-IsRising, entry_split, take-drop, take-below,
  get_elem?-drop,
}
use kssql.Common.{◌∙◌}
use kssql.Storage.Btree.Node.{leaf}

module _ (store : Store) where
  open store use {State, load, save, allocate}

  -- A split that succeeds has put the key and the page into the parent and saved both halves.
  record Finished (parent : Node) (i : ℕ) (mid_key : Bytes) (id : ℕ) (right : Node) (child_id : ℕ)
      (left : Node) (s : State) (parent' : Node) (s' : State) : Type 0 where
    keys : insert_at? parent.keys i mid_key ≡ some parent'.keys
    children : insert_at? parent.children (i + 1) id ≡ some parent'.children
    saved_right : (save id right s).0 ≡ ok tt
    saved_left : (save child_id left (save id right s).1).0 ≡ ok tt
    kind : parent'.node_type ≡ parent.node_type
    final : s' ≡ (save child_id left (save id right s).1).1

  finish_split_lem :
      (parent : Node) (i : ℕ) (mid_key : Bytes) (id : ℕ) (right : Node) (child_id : ℕ) (left : Node)
      (s : State) (parent' : Node)
      → (finish_split store parent i mid_key id right child_id left s).0 ≡ ok parent'
      → Finished parent i mid_key id right child_id left s parent'
          (finish_split store parent i mid_key id right child_id left s).1
  unfolding finish_split
  finish_split_lem parent i mid_key id right child_id left s parent' h = ground arith

  -- What a split of the leaf `child` at `child_id` leaves behind.
  pub record IsSplit (parent parent' : Node) (i : ℕ) (child_id : ℕ) (child left right : Node)
      (mid : Bytes) (s s' : State) : Type 0 where
    pub middle : get_elem? child.keys (length child.keys / 2) ≡ some mid
    pub keys : insert_at? parent.keys i mid ≡ some parent'.keys
    pub children : insert_at? parent.children (i + 1) (store.count s) ≡ some parent'.children
    pub left_saved : load s' child_id ≡ ok left
    pub right_saved : load s' (store.count s) ≡ ok right
    pub all_keys : left.keys ++ right.keys ≡ child.keys
    pub all_values : left.values ++ right.values ≡ child.values
    pub below : All (λ k. k ≺ mid) left.keys
    pub from_middle : get_elem? right.keys 0 ≡ some mid
    pub left_leaf : IsLeaf left
    pub right_leaf : IsLeaf right
    pub left_kind : left.node_type ≡ child.node_type
    pub right_kind : right.node_type ≡ leaf
    pub parent_kind : parent'.node_type ≡ parent.node_type
    pub same_count : store.count s' ≡ suc (store.count s)
    pub left_next : left.next_leaf ≡ some (store.count s)
    pub right_next : right.next_leaf ≡ child.next_leaf
    pub parted :
        (j : Bytes)
        → leaf_get j child ≡ (if bytes_lt j mid then leaf_get j left else leaf_get j right)
    pub others :
        (other : ℕ) (old : Node)
        → other < store.count s
        → other ≢ child_id
        → load s other ≡ ok old
        → load s' other ≡ ok old

  abbrev pub left_half : Node → ℕ → Node
  left_half child id = record child {
    keys = take (length child.keys / 2) child.keys;
    values = take (length child.keys / 2) child.values;
    next_leaf = some id;
  }

  abbrev pub right_half : Node → Node
  right_half child = record new_leaf {
    keys = drop (length child.keys / 2) child.keys;
    values = drop (length child.keys / 2) child.values;
    next_leaf = child.next_leaf;
  }

  halves-left : (child : Node) (id : ℕ) → IsLeaf child → IsLeaf (left_half child id)
  halves-left child id l = record {
    rising = take-IsRising (length child.keys / 2) child.keys l.rising;
    paired = omega (
      arith,
      l.paired,
      length-take (length child.keys / 2) child.keys,
      length-take (length child.keys / 2) child.values,
    );
  }

  halves-right : (child : Node) → IsLeaf child → IsLeaf (right_half child)
  halves-right child l = record {
    rising = drop-IsRising (length child.keys / 2) child.keys l.rising;
    paired = omega (
      arith,
      l.paired,
      length-drop (length child.keys / 2) child.keys,
      length-drop (length child.keys / 2) child.values,
    );
  }

  split_leaf_run :
      (IsValid : State → Type 0) (laws : IsStore store IsValid) (parent : Node) (i : ℕ)
      (child_id : ℕ) (child : Node) (s : State) (parent' : Node) (mid : Bytes)
      → IsLeaf child
      → 0 < length child.keys
      → get_elem? child.keys (length child.keys / 2) ≡ some mid
      → (split_leaf store parent i child_id child s).0 ≡ ok parent'
      → ((allocate s).0 ≡ ok (store.count s))
        × (split_leaf store parent i child_id child s
            ≡ finish_split store parent i mid
                (store.count s)
                (right_half child)
                child_id
                (left_half child (store.count s))
                (allocate s).1)
  unfolding split_leaf
  split_leaf_run IsValid laws parent i child_id child s parent' mid l pos at h =
      let m = length child.keys / 2 in
      let ks = split_off?_lem m child.keys (omega arith) in
      let vs = split_off?_lem m child.values (omega (arith, l.paired)) in
      elim (Result-cases (allocate s).0) [
        | inl (id, done) ↦
            let fresh : id ≡ store.count s = laws.allocate-count id s done in
            let done' : (allocate s).0 ≡ ok (store.count s) = rw (← fresh) done in
            (done', rw (at, ks, vs, done'))
        | inr (e, failed) ↦ absurd (cc (rw (at, ks, vs, failed) at h))
      ]

  -- The halves of a split that succeeds, in a valid state.
  pub split_leaf_halves :
      (IsValid : State → Type 0) (laws : IsStore store IsValid) (parent : Node) (i : ℕ)
      (child_id : ℕ) (child : Node) (s : State) (parent' : Node)
      → IsValid s
      → suc (store.count s) < 2 ^ 32
      → IsLeaf child
      → 0 < length child.keys
      → child_id < store.count s
      → (split_leaf store parent i child_id child s).0 ≡ ok parent'
      → (mid : Bytes) × IsSplit parent parent' i child_id child
          (left_half child (store.count s))
          (right_half child)
          mid
          s
          (split_leaf store parent i child_id child s).1
        × IsValid (split_leaf store parent i child_id child s).1
  split_leaf_halves IsValid laws parent i child_id child s parent' valid room l pos old h =
      let m = length child.keys / 2 in
      let (mid, at) = get_elem?_lem m child.keys (omega arith) in
      let id = store.count s in
      let (fresh, run) =
        split_leaf_run IsValid laws parent i child_id child s parent' mid l pos at h in
      let right = right_half child in
      let left = left_half child id in
      let s1 = (allocate s).1 in
      let s2 = (save id right s1).1 in
      let f = finish_split_lem parent i mid id right child_id left s1 parent' (rw run at h) in
      let more = laws.count-allocate id s valid room fresh in
      let valid1 = laws.allocate-IsValid id s valid room fresh in
      let more' = laws.count-save id right s1 valid1 f.saved_right (omega (arith, more)) in
      let valid2 = laws.save-IsValid id right s1 valid1 f.saved_right (omega (arith, more)) in
      let left_ok = halves-left child id l in
      let right_ok = halves-right child l in
      (
        mid,
        rw (run, f.final)
            (record {
              middle = at;
              keys = f.keys;
              children = f.children;
              left_saved = laws.load-save child_id left s2 valid2 f.saved_left;
              right_saved =
                  laws.load-save_ne child_id id left right s2 valid2 f.saved_left
                    (omega (arith, old)) (omega (arith, more, more'))
                    (laws.load-save id right s1 valid1 f.saved_right);
              all_keys = take-drop m child.keys;
              all_values = take-drop m child.values;
              below = take-below m child.keys mid l.rising at;
              from_middle = get_elem?-drop m child.keys ∙ at;
              left_leaf = left_ok;
              right_leaf = right_ok;
              left_kind = refl;
              right_kind = refl;
              parent_kind = f.kind;
              same_count =
                  laws.count-save child_id left s2 valid2 f.saved_left
                    (omega (arith, more, more', old))
                  ∙ more'
                  ∙ more;
              left_next = refl;
              right_next = refl;
              parted = λ j. ground (
                arith,
                leaf_get_lem child j l,
                leaf_get_lem left j left_ok,
                leaf_get_lem right j right_ok,
                entry_split m child.keys child.values mid j l.rising l.paired at,
              );
              others = λ other node lt ne was.
                  laws.load-save_ne child_id other left node s2 valid2 f.saved_left ne
                    (omega (arith, more, more', lt))
                    (laws.load-save_ne id other right node s1 valid1 f.saved_right
                      (omega (arith, lt)) (omega (arith, more, lt))
                      (laws.load-allocate id other node s valid room fresh lt was));
            }),
        rw (run, f.final)
            (laws.save-IsValid child_id left s2 valid2 f.saved_left
              (omega (arith, more, more', old))),
      )

  -- In a valid state with a page id left, if the split of a leaf whose keys rise and match its values, and are
  -- not none, succeeds, then just its keys below the middle key stay in it, and the others, from the middle key
  -- on, are in a new page, each with its value; no key or value is lost or stands in both; both are leaves of
  -- the same kind and are linked in the chain of the leaves; the parent has the middle key and the new page in
  -- their places; and no other page has changed.
  pub split_leaf_lem :
      (IsValid : State → Type 0) (laws : IsStore store IsValid) (parent : Node) (i : ℕ)
      (child_id : ℕ) (child : Node) (s : State) (parent' : Node)
      → IsValid s
      → suc (store.count s) < 2 ^ 32
      → IsLeaf child
      → 0 < length child.keys
      → child_id < store.count s
      → (split_leaf store parent i child_id child s).0 ≡ ok parent'
      → (left : Node) × (right : Node) × (mid : Bytes) × IsSplit parent parent' i child_id child
          left right mid s
          (split_leaf store parent i child_id child s).1
  split_leaf_lem IsValid laws parent i child_id child s parent' valid room l pos old h =
      let (mid, split, after) =
        split_leaf_halves IsValid laws parent i child_id child s parent' valid room l pos old h in
      (left_half child (store.count s), right_half child, mid, split)
