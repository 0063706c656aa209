-- ===== src/Storage/Btree/Tree/Leaf.antt =====
-- src/storage/btree.rs: a leaf as a finite map: what `get` and `insert_non_full` do to it.
use kssql.Common.{
  ◌≡◌, inl, inr, refl, ap, Option, none, some, List, [], ◌∷◌, Bytes, length, set?, insert_at?,
  cons?, All, arith, bytes_eq, bytes_eq_iff, Bool-cases, if◌then◌else◌, bytes_equality,
}
use kssql.Common.Order.{bytes_lt, ◌≺◌, lt_irrefl, lt_asymm, lt_trans, lt_total}
use kssql.Common.Result.{ok}
use kssql.Storage.Btree.Node.{Node, Search, found, absent, shift, binary_search}
use kssql.Storage.Btree.Tree.{put_at, leaf_insert, value_at, leaf_get}

-- The keys rise strictly.
abbrev pub IsRising : List Bytes → Type 0
IsRising [] = Unit
IsRising (k ∷ keys) = All (λ j. k ≺ j) keys × IsRising keys

pub record IsLeaf (node : Node) : Type 0 where
  pub rising : IsRising node.keys
  pub paired : length node.keys ≡ length node.values

-- The map that the two vectors stand for, and its update.
unfoldable pub entry : List Bytes → List Bytes → Bytes → Option Bytes
entry [] values key = none
entry (k ∷ keys) [] key = none
entry (k ∷ keys) (v ∷ values) key = if bytes_eq k key then some v else entry keys values key

unfoldable pub put_key : List Bytes → Bytes → List Bytes
put_key [] key = key ∷ []
put_key (k ∷ keys) key =
    let rest = put_key keys key in
    if bytes_eq k key then k ∷ keys else (if bytes_lt key k then key ∷ k ∷ keys else k ∷ rest)

unfoldable pub put_value : List Bytes → List Bytes → Bytes → Bytes → List Bytes
put_value [] values key value = value ∷ values
put_value (k ∷ keys) [] key value = value ∷ []
put_value (k ∷ keys) (v ∷ values) key value =
    let rest = put_value keys values key value in
    if bytes_eq k key
    then value ∷ values
    else (if bytes_lt key k then value ∷ v ∷ values else v ∷ rest)

-- A key before all the keys is not there.
pub entry_before :
    (keys values : List Bytes) (k key : Bytes)
    → key ≺ k
    → All (λ j. k ≺ j) keys
    → entry keys values key ≡ none
unfolding entry
entry_before [] values k key h a = refl
entry_before (j ∷ keys) [] k key h a = refl
entry_before (j ∷ keys) (v ∷ values) k key h a = ground (
  arith,
  bytes_eq_iff j key,
  lt_asymm key k,
  lt_trans key k j,
  lt_irrefl key,
  entry_before keys values k key h a.1,
)

value_at-shift :
    (s : Search) (v : Bytes) (values : List Bytes)
    → value_at (shift s) (v ∷ values) ≡ value_at s values
value_at-shift (found i) v values = refl
value_at-shift (absent i) v values = refl

value_at_lem :
    (keys values : List Bytes) (key : Bytes)
    → IsRising keys
    → length keys ≡ length values
    → value_at (binary_search keys key) values ≡ ok (entry keys values key)
unfolding binary_search entry
value_at_lem [] values key r h = refl
value_at_lem (k ∷ keys) [] key r h = absurd (omega arith)
value_at_lem (k ∷ keys) (v ∷ values) key r h = elim (Bool-cases (bytes_eq k key)) [
  | inl same ↦ rw same
  | inr other ↦ elim (Bool-cases (bytes_lt key k)) [
    | inl lt ↦ rw (other, lt, entry_before keys values k key lt r.0)
    | inr gt ↦
        rw (other, gt, value_at-shift (binary_search keys key) v values)
          (value_at_lem keys values key r.1 (omega arith))
  ]
]

-- A lookup in a leaf finds what the pairs of keys and values say.
pub leaf_get_lem :
    (node : Node) (key : Bytes)
    → IsLeaf node
    → leaf_get key node ≡ ok (entry node.keys node.values key)
unfolding leaf_get
leaf_get_lem node key l = value_at_lem node.keys node.values key l.rising l.paired

-- The two vectors after an insertion at a place.
abbrev put_both :
    Search → Bytes → Bytes → List Bytes → List Bytes → Option (List Bytes) × Option (List Bytes)
put_both (found i) key value keys values = (some keys, set? values i value)
put_both (absent i) key value keys values = (insert_at? keys i key, insert_at? values i value)

put_both-shift :
    (s : Search) (key value k v : Bytes) (keys values : List Bytes)
    → (let both = put_both s key value keys values in
        ◌≡◌ {A = Option (List Bytes) × Option (List Bytes)}
          (put_both (shift s) key value (k ∷ keys) (v ∷ values))
          (cons? k both.0, cons? v both.1))
put_both-shift (found i) key value k v keys values = refl
put_both-shift (absent i) key value k v keys values = refl

put_both_lem :
    (keys values : List Bytes) (key value : Bytes)
    → length keys ≡ length values
    → ◌≡◌ {A = Option (List Bytes) × Option (List Bytes)}
        (put_both (binary_search keys key) key value keys values)
        (some (put_key keys key), some (put_value keys values key value))
unfolding binary_search put_key put_value
put_both_lem [] values key value h = refl
put_both_lem (k ∷ keys) [] key value h = absurd (omega arith)
put_both_lem (k ∷ keys) (v ∷ values) key value h = elim (Bool-cases (bytes_eq k key)) [
  | inl same ↦ rw same
  | inr other ↦ elim (Bool-cases (bytes_lt key k)) [
    | inl lt ↦ rw (other, lt)
    | inr gt ↦
        rw (other, gt, put_both-shift (binary_search keys key) key value k v keys values)
          (let ih = put_both_lem keys values key value (omega arith) in
            rw (ap (λ b. b.0) ih, ap (λ b. b.1) ih))
  ]
]

All-put_key :
    (j key : Bytes) (keys : List Bytes)
    → j ≺ key
    → All (λ k. j ≺ k) keys
    → All (λ k. j ≺ k) (put_key keys key)
unfolding put_key
All-put_key j key [] h a = (h, tt)
All-put_key j key (k ∷ keys) h a = ground (arith, All-put_key j key keys)

All-before :
    (j k : Bytes) (keys : List Bytes) → j ≺ k → All (λ i. k ≺ i) keys → All (λ i. j ≺ i) keys
All-before j k [] h a = tt
All-before j k (i ∷ keys) h a = (lt_trans j k i h a.0, All-before j k keys h a.1)

put_key-IsRising : (keys : List Bytes) (key : Bytes) → IsRising keys → IsRising (put_key keys key)
unfolding put_key
put_key-IsRising [] key r = (tt, tt)
put_key-IsRising (k ∷ keys) key r = ground (
  arith,
  bytes_eq_iff k key,
  lt_total k key,
  All-before key k keys,
  All-put_key k key keys,
  put_key-IsRising keys key,
)

length-put :
    (keys values : List Bytes) (key value : Bytes)
    → length keys ≡ length values
    → length (put_key keys key) ≡ length (put_value keys values key value)
unfolding put_key put_value
length-put [] [] key value h = refl
length-put [] (v ∷ values) key value h = absurd (omega arith)
length-put (k ∷ keys) [] key value h = absurd (omega arith)
length-put (k ∷ keys) (v ∷ values) key value h = ground (arith, length-put keys values key value)

entry-put :
    (keys values : List Bytes) (key value j : Bytes)
    → length keys ≡ length values
    → entry (put_key keys key) (put_value keys values key value) j
      ≡ (if bytes_eq key j then some value else entry keys values j)
unfolding entry put_key put_value
entry-put [] [] key value j h = refl
entry-put [] (v ∷ values) key value j h = absurd (omega arith)
entry-put (k ∷ keys) [] key value j h = absurd (omega arith)
entry-put (k ∷ keys) (v ∷ values) key value j h = ground (
  arith,
  bytes_eq_iff k key,
  bytes_eq_iff k j,
  bytes_eq_iff key j,
  entry-put keys values key value j,
)

-- the leaf after an insertion
abbrev pub put_entry : Bytes → Bytes → Node → Node
put_entry key value node = record node {
  keys = put_key node.keys key;
  values = put_value node.keys node.values key value;
}

put_at_lem :
    (s : Search) (key value : Bytes) (node : Node) (ks vs : List Bytes)
    → ◌≡◌ {A = Option (List Bytes) × Option (List Bytes)}
        (put_both s key value node.keys node.values)
        (some ks, some vs)
    → put_at s key value node ≡ some (record node { keys = ks; values = vs })
put_at_lem (found i) key value node ks vs h = ground (arith, ap (λ b. b.0) h, ap (λ b. b.1) h)
put_at_lem (absent i) key value node ks vs h = ground (arith, ap (λ b. b.0) h, ap (λ b. b.1) h)

pub leaf_insert_lem :
    (key value : Bytes) (node : Node)
    → IsLeaf node
    → leaf_insert key value node ≡ some (put_entry key value node)
unfolding leaf_insert
leaf_insert_lem key value node l =
    put_at_lem (binary_search node.keys key) key value node (put_key node.keys key)
      (put_value node.keys node.values key value)
      (put_both_lem node.keys node.values key value l.paired)

pub put_entry-IsLeaf :
    (key value : Bytes) (node : Node) → IsLeaf node → IsLeaf (put_entry key value node)
put_entry-IsLeaf key value node l = record {
  rising = put_key-IsRising node.keys key l.rising;
  paired = length-put node.keys node.values key value l.paired;
}

-- An insertion into a leaf whose keys rise and match its values never fails. The keys of the new leaf
-- rise again and match its values, the key is found with the new value, every other key is found as
-- before, and the type and the link of the leaf stay.
pub leaf_get-leaf_insert :
    (key value : Bytes) (node : Node)
    → IsLeaf node
    → (node' : Node) × (leaf_insert key value node ≡ some node')
      × IsLeaf node'
      × ((j : Bytes)
          → leaf_get j node' ≡ (if bytes_eq key j then ok (some value) else leaf_get j node))
      × (node'.node_type ≡ node.node_type)
      × (node'.next_leaf ≡ node.next_leaf)
leaf_get-leaf_insert key value node l =
    let l' = put_entry-IsLeaf key value node l in
    (
      put_entry key value node,
      leaf_insert_lem key value node l,
      l',
      λ j. ground (
        arith,
        leaf_get_lem (put_entry key value node) j l',
        leaf_get_lem node j l,
        entry-put node.keys node.values key value j l.paired,
      ),
      refl,
      refl,
    )
