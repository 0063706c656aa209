-- ===== src/Storage/Btree/Tree/Halves.antt =====
-- src/storage/btree.rs: lists of keys and values that are cut in two.
use kssql.Common.{
  ℕ, zero, suc, ◌≤◌, ◌<◌, ◌≡◌, refl, ap, ◌++◌, some, List, [], ◌∷◌, Bytes, length, get_elem?, take,
  drop, split_off?, All, arith, bytes_eq_iff, if◌then◌else◌,
}
use kssql.Common.Order.{bytes_lt, ◌≺◌, lt_irrefl}
use kssql.Storage.Btree.Tree.Leaf.{IsRising, entry, entry_before}

pub split_off?_lem {ℓ} :
    {A : Type ℓ} (m : ℕ) (xs : List A)
    → m ≤ length xs
    → split_off? xs m ≡ some (take m xs, drop m xs)
split_off?_lem zero xs h = refl
split_off?_lem (suc m) [] h = absurd (omega arith)
split_off?_lem (suc m) (x ∷ xs) h = rw (split_off?_lem m xs (omega arith))

pub get_elem?_lem {ℓ} :
    {A : Type ℓ} (m : ℕ) (xs : List A) → m < length xs → (x : A) × (get_elem? xs m ≡ some x)
get_elem?_lem m [] h = absurd (omega arith)
get_elem?_lem zero (x ∷ xs) h = (x, refl)
get_elem?_lem (suc m) (x ∷ xs) h = get_elem?_lem m xs (omega arith)

All-take {ℓ κ} : {A : Type ℓ} (P : A → Type κ) (m : ℕ) (xs : List A) → All P xs → All P (take m xs)
All-take P zero xs a = tt
All-take P (suc m) [] a = tt
All-take P (suc m) (x ∷ xs) a = (a.0, All-take P m xs a.1)

pub take-IsRising : (m : ℕ) (keys : List Bytes) → IsRising keys → IsRising (take m keys)
take-IsRising zero keys r = tt
take-IsRising (suc m) [] r = tt
take-IsRising (suc m) (k ∷ keys) r = (All-take (λ j. k ≺ j) m keys r.0, take-IsRising m keys r.1)

pub drop-IsRising : (m : ℕ) (keys : List Bytes) → IsRising keys → IsRising (drop m keys)
drop-IsRising zero keys r = r
drop-IsRising (suc m) [] r = tt
drop-IsRising (suc m) (k ∷ keys) r = drop-IsRising m keys r.1

All-get {ℓ κ} :
    {A : Type ℓ} (P : A → Type κ) (m : ℕ) (xs : List A) (x : A)
    → All P xs
    → get_elem? xs m ≡ some x
    → P x
All-get P m [] x a h = cc
All-get P zero (y ∷ xs) x a h = let same : y ≡ x = ground (arith, h) in rw same at a.0
All-get P (suc m) (y ∷ xs) x a h = All-get P m xs x a.1 h

-- The two parts of a list are the list.
pub take-drop {ℓ} : {A : Type ℓ} (m : ℕ) (xs : List A) → take m xs ++ drop m xs ≡ xs
take-drop zero xs = refl
take-drop (suc m) [] = refl
take-drop (suc m) (x ∷ xs) = ap (λ l. x ∷ l) (take-drop m xs)

pub get_elem?-drop {ℓ} :
    {A : Type ℓ} (m : ℕ) (xs : List A) → get_elem? (drop m xs) 0 ≡ get_elem? xs m
get_elem?-drop zero xs = refl
get_elem?-drop (suc m) [] = refl
get_elem?-drop (suc m) (x ∷ xs) = get_elem?-drop m xs

-- The keys left of the middle key are smaller.
pub take-below :
    (m : ℕ) (keys : List Bytes) (mid : Bytes)
    → IsRising keys
    → get_elem? keys m ≡ some mid
    → All (λ k. k ≺ mid) (take m keys)
take-below zero keys mid r at = tt
take-below (suc m) [] mid r at = tt
take-below (suc m) (k ∷ keys) mid r at =
    (All-get (λ i. k ≺ i) m keys mid r.0 at, take-below m keys mid r.1 at)

-- What stands under a key is found left of the middle key or from it on.
pub entry_split :
    (m : ℕ) (keys values : List Bytes) (mid j : Bytes)
    → IsRising keys
    → length keys ≡ length values
    → get_elem? keys m ≡ some mid
    → entry keys values j ≡ (
        if bytes_lt j mid
        then entry (take m keys) (take m values) j
        else entry (drop m keys) (drop m values) j)
unfolding entry
entry_split m [] values mid j r e h = cc
entry_split m (k ∷ keys) [] mid j r e h = absurd (omega arith)
entry_split zero (k ∷ keys) (v ∷ values) mid j r e h =
    ground (arith, bytes_eq_iff k j, lt_irrefl k, entry_before keys values k j)
entry_split (suc m) (k ∷ keys) (v ∷ values) mid j r e h =
    let after : k ≺ mid = All-get (λ i. k ≺ i) m keys mid r.0 h in
    ground (arith, bytes_eq_iff k j, after, entry_split m keys values mid j r.1)
