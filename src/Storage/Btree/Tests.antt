-- ===== src/Storage/Btree/Tests.antt =====
-- src/storage/btree.rs: a store that keeps its nodes in a list, runs on it, and the theorems.
use kssql.Common.{
  ℕ, zero, suc, ◌<◌, ◌≡◌, ◌≢◌, refl, ap, ◌∙◌, Option, none, some, List, [], ◌∷◌, ◌++◌, Bytes,
  length, length-append, get_elem?, set?, ltb, bytes_eq, if◌then◌else◌, arith,
}
use kssql.Common.Order.{bytes_lt}
use kssql.Common.Result.{Result, ok, err, panic, read_failed}
use kssql.Storage.Btree.Node.{Node, new_leaf, new_internal}
use kssql.Storage.Btree.Store.{Store, IsStore}
use kssql.Storage.Btree.Tree.{insert, get_loop, split_leaf, finish_split, leaf_insert, leaf_get}
use kssql.Storage.Btree.Tree.Leaf.{IsLeaf, leaf_get-leaf_insert}
use kssql.Storage.Btree.Tree.Route.{Route, at_leaf, down}
use kssql.Storage.Btree.Tree.Written.{IsRoomy}
use kssql.Storage.Btree.Tree.Insertion.{get_loop-insert}
use kssql.Storage.Btree.Node.{child_index, binary_search}
use kssql.Common.{◌≢◌}
use kssql.Storage.Btree.Tree.Split.{IsSplit, split_leaf_lem}

abbrev load_node : List Node → ℕ → Result Node
load_node nodes id = elim (get_elem? nodes id) [ none ↦ err read_failed | some node ↦ ok node ]

abbrev saved : List Node → Option (List Node) → Result (Unit {0}) × List Node
saved nodes none = (err panic, nodes)
saved nodes (some nodes') = (ok tt, nodes')

abbrev pub test_store : Store
test_store = record {
  State = List Node;
  count = λ nodes. length nodes;
  load = load_node;
  save = λ id node nodes. saved nodes (set? nodes id node);
  allocate = λ nodes. (ok (length nodes), nodes ++ new_leaf ∷ []);
  sync = λ nodes. ok tt;
  is_full = λ node. ltb 2 (length node.keys);
}

module _ {A : Type 0} where
  set?_lem :
      (xs ys : List A) (i : ℕ) (v : A)
      → set? xs i v ≡ some ys
      → (get_elem? ys i ≡ some v) × (length ys ≡ length xs)
  set?_lem [] ys i v h = cc
  set?_lem (x ∷ xs) ys zero v h = ground arith
  set?_lem (x ∷ xs) [] (suc i) v h = ground arith
  set?_lem (x ∷ xs) (y ∷ ys) (suc i) v h = ground (arith, set?_lem xs ys i v)

  set?_ne :
      (xs ys : List A) (i j : ℕ) (v : A)
      → set? xs i v ≡ some ys
      → j ≢ i
      → get_elem? ys j ≡ get_elem? xs j
  set?_ne [] ys i j v h ne = cc
  set?_ne (x ∷ xs) ys zero zero v h ne = absurd (ne refl)
  set?_ne (x ∷ xs) ys zero (suc j) v h ne = ground arith
  set?_ne (x ∷ xs) [] (suc i) j v h ne = ground arith
  set?_ne (x ∷ xs) (y ∷ ys) (suc i) zero v h ne = ground arith
  set?_ne (x ∷ xs) (y ∷ ys) (suc i) (suc j) v h ne = ground (arith, set?_ne xs ys i j v)

  get_elem?-append :
      (xs ys : List A) (i : ℕ) → i < length xs → get_elem? (xs ++ ys) i ≡ get_elem? xs i
  get_elem?-append [] ys i h = absurd (omega arith)
  get_elem?-append (x ∷ xs) ys zero h = refl
  get_elem?-append (x ∷ xs) ys (suc i) h = get_elem?-append xs ys i (omega arith)

saved_ok :
    (s : List Node) (o : Option (List Node))
    → (saved s o).0 ≡ ok tt
    → (s' : List Node) × (o ≡ some s')
saved_ok s none h = cc
saved_ok s (some s') h = (s', refl)

load_node-same :
    (nodes nodes' : List Node) (id : ℕ)
    → get_elem? nodes' id ≡ get_elem? nodes id
    → load_node nodes' id ≡ load_node nodes id
load_node-same nodes nodes' id h =
    ap (λ o. elim o [ none ↦ err read_failed | some node ↦ ok node ]) h

load_node-some :
    (nodes : List Node) (id : ℕ) (node : Node)
    → get_elem? nodes id ≡ some node
    → load_node nodes id ≡ ok node
load_node-some nodes id node h = ap (λ o. elim o [ none ↦ err read_failed | some n ↦ ok n ]) h

pub is_store : IsStore test_store (λ nodes. Unit {0})
is_store = record {
  load-save = λ id node s valid done.
      let (s', e) = saved_ok s (set? s id node) done in
      ap (λ o. load_node (saved s o).1 id) e
      ∙ load_node-some s' id node (set?_lem s s' id node e).0;
  load-save_ne = λ id other node old s valid done ne lt was.
      let (s', e) = saved_ok s (set? s id node) done in
      ap (λ o. load_node (saved s o).1 other) e
      ∙ load_node-same s s' other (set?_ne s s' id other node e ne)
      ∙ was;
  count-save = λ id node s valid done lt.
      let (s', e) = saved_ok s (set? s id node) done in
      ap (λ o. length (saved s o).1) e ∙ (set?_lem s s' id node e).1;
  save-IsValid = λ id node s valid done lt. tt;
  allocate-IsValid = λ id s valid room done. tt;
  allocate-count = λ id s done. ground arith;
  count-allocate = λ id s valid room done. omega (arith, length-append s (new_leaf ∷ []));
  load-allocate = λ id other old s valid room done lt was.
      load_node-same s (s ++ new_leaf ∷ []) other (get_elem?-append s (new_leaf ∷ []) other lt)
      ∙ was;
}

-- A leaf with three keys, which is full.
abbrev pub three : Node
three = record new_leaf {
  keys = (1 ∷ []) ∷ (2 ∷ []) ∷ (3 ∷ []) ∷ [];
  values = (10 ∷ []) ∷ (20 ∷ []) ∷ (30 ∷ []) ∷ [];
}

pub three-IsLeaf : IsLeaf three
unfolding bytes_lt
three-IsLeaf = record { rising = ((refl, (refl, tt)), ((refl, tt), (tt, tt))); paired = refl }

leaf_get-leaf_insert_example :
    (node' : Node) × (leaf_insert (2 ∷ []) (21 ∷ []) three ≡ some node')
    × IsLeaf node'
    × ((j : Bytes)
        → leaf_get j node'
          ≡ (if bytes_eq (2 ∷ []) j then ok (some (21 ∷ [])) else leaf_get j three))
    × (node'.node_type ≡ three.node_type)
    × (node'.next_leaf ≡ three.next_leaf)
leaf_get-leaf_insert_example = leaf_get-leaf_insert (2 ∷ []) (21 ∷ []) three three-IsLeaf

-- The parent of a split of the leaf at page 1.
abbrev parent : Node
parent = record new_internal { children = 1 ∷ [] }

abbrev parent' : Node
parent' = record new_internal { keys = (2 ∷ []) ∷ []; children = 1 ∷ 2 ∷ [] }

split_three : (split_leaf test_store parent 0 1 three (parent ∷ three ∷ [])).0 ≡ ok parent'
unfolding split_leaf finish_split
split_three = refl

split_leaf_lem_example :
    (left : Node) × (right : Node) × (mid : Bytes) × IsSplit test_store parent parent' 0 1 three
      left right mid
      (parent ∷ three ∷ [])
      (split_leaf test_store parent 0 1 three (parent ∷ three ∷ [])).1
split_leaf_lem_example =
    split_leaf_lem test_store (λ nodes. Unit) is_store parent 0 1 three (parent ∷ three ∷ [])
      parent' tt (omega arith) three-IsLeaf (omega arith) (omega arith) split_three

-- The internal node at page 0 has one full leaf, whose middle key is 2.
abbrev one_child : List Node
one_child = parent ∷ three ∷ []

-- An update of the middle key of a full leaf is put left of the key that the split moves up, and a
-- lookup goes right of it: it returns the old value.
middle_key_update : (insert test_store 3 0 (2 ∷ []) (21 ∷ []) one_child).0 ≡ ok tt
unfolding insert bytes_lt
middle_key_update = refl

middle_key_lookup :
    get_loop test_store 3 (insert test_store 3 0 (2 ∷ []) (21 ∷ []) one_child).1 (2 ∷ []) 0
    ≡ ok (some (20 ∷ []))
unfolding insert get_loop bytes_lt
middle_key_lookup = refl

-- A leaf with room, under a root with two children.
abbrev two : Node
two = record new_leaf { keys = (1 ∷ []) ∷ (3 ∷ []) ∷ []; values = (10 ∷ []) ∷ (30 ∷ []) ∷ [] }

abbrev fork : Node
fork = record new_internal { keys = (5 ∷ []) ∷ []; children = 1 ∷ 2 ∷ [] }

abbrev roomy : List Node
roomy = fork ∷ two ∷ three ∷ []

two-IsLeaf : IsLeaf two
unfolding bytes_lt
two-IsLeaf = record { rising = ((refl, tt), (tt, tt)); paired = refl }

two-Route : Route test_store (IsRoomy test_store) roomy (2 ∷ []) 1 two 0 2
unfolding child_index bytes_lt binary_search
two-Route =
    down fork two (omega arith) refl refl refl refl refl (at_leaf refl (omega arith) refl refl)

two_done : (insert test_store 2 0 (2 ∷ []) (20 ∷ []) roomy).0 ≡ ok tt
unfolding insert bytes_lt
two_done = refl

get_loop-insert_example :
    (get_loop test_store 2 (insert test_store 2 0 (2 ∷ []) (20 ∷ []) roomy).1 (2 ∷ []) 0
      ≡ ok (some (20 ∷ [])))
    × ((j : Bytes) (page_j : ℕ) (node_j : Node) (d : ℕ)
        → j ≢ 2 ∷ []
        → Route test_store (λ n. Unit) roomy j page_j node_j 0 d
        → get_loop test_store d (insert test_store 2 0 (2 ∷ []) (20 ∷ []) roomy).1 j 0
          ≡ get_loop test_store d roomy j 0)
get_loop-insert_example =
    get_loop-insert test_store (λ nodes. Unit) is_store roomy 0 fork (2 ∷ []) (20 ∷ []) 1 two 2 tt
      refl refl two-Route two-IsLeaf two_done
