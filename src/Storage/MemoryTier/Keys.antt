-- ===== src/Storage/MemoryTier/Keys.antt =====
-- src/storage/mod.rs: removal of the keys of a list of items from a map.
use kssql.Common.{
  ℕ, zero, suc, ◌+◌, ◌≤◌, ◌≡◌, refl, true, some, none, List, [], ◌∷◌, Bytes, length, take, drop,
  arith, bytes_equality, bytes_eq_iff,
}
use kssql.Common.Int.{ℤ, leb_ℤ}
use kssql.Common.Dict
use kssql.Common.Dict.{
  Dict, IsUnique, found, get-remove, length-remove, remove-IsUnique, remove_absent,
}
use kssql.Storage.MemoryTier.Sort.{From, IsSorted}

module _ {ℓ} {V : Type ℓ} where
  abbrev pub remove_keys : List (Bytes × ℤ) → Dict Bytes V → Dict Bytes V
  remove_keys [] m = m
  remove_keys (x ∷ items) m = remove_keys items (Dict.remove m x.0)

  pub remove_keys-IsUnique :
      (items : List (Bytes × ℤ)) (m : Dict Bytes V) → IsUnique m → IsUnique (remove_keys items m)
  remove_keys-IsUnique [] m u = u
  remove_keys-IsUnique (x ∷ items) m u =
      remove_keys-IsUnique items (Dict.remove m x.0) (remove-IsUnique m x.0 u)

  -- What is removed is what the list has a key for.
  pub get-remove_keys :
      (items : List (Bytes × ℤ)) (m : Dict Bytes V) (key : Bytes)
      → Dict.get (remove_keys items m) key
        ≡ elim (Dict.get items key) [ some time ↦ none | none ↦ Dict.get m key ]
  get-remove_keys [] m key = refl
  get-remove_keys (x ∷ items) m key =
      ground (arith, get-remove_keys items (Dict.remove m x.0) key, get-remove m x.0 key)

-- Every key of the first map is one of the second.
abbrev pub IsWithin {ℓ κ} : {V : Type ℓ} {W : Type κ} → Dict Bytes V → Dict Bytes W → Type (ℓ ⊔ κ)
IsWithin m n = (key : Bytes) → Dict.get n key ≡ none → Dict.get m key ≡ none

module _ {ℓ κ} {V : Type ℓ} {W : Type κ} where
  IsWithin-remove :
      (k : Bytes) (v : V) (m : Dict Bytes V) (n : Dict Bytes W)
      → Dict.get m k ≡ none
      → IsWithin ((k, v) ∷ m) n
      → IsWithin m (Dict.remove n k)
  IsWithin-remove k v m n u w key h = ground (arith, get-remove n k key, bytes_eq_iff k key, w key)

  -- a key of the first map is found in the second
  within-found :
      (k : Bytes) (v : V) (m : Dict Bytes V) (n : Dict Bytes W)
      → IsWithin ((k, v) ∷ m) n
      → found (Dict.get n k) ≡ 1
  within-found k v m n w = ground (arith, bytes_eq_iff k k, w k)

  pub length-le_of_within :
      (m : Dict Bytes V) (n : Dict Bytes W)
      → IsUnique m
      → IsUnique n
      → IsWithin m n
      → length m ≤ length n
  length-le_of_within [] n u v w = omega arith
  length-le_of_within ((k, x) ∷ m) n u v w =
      let shorter =
        length-le_of_within m (Dict.remove n k) u.1 (remove-IsUnique n k v)
          (IsWithin-remove k x m n u.0 w) in
      omega (arith, shorter, length-remove n k v, within-found k x m n w)

module _ {ℓ} {V : Type ℓ} where
  -- Items with unique keys that are all there take away as many entries.
  pub length-remove_keys :
      (items : List (Bytes × ℤ)) (m : Dict Bytes V)
      → IsUnique items
      → IsUnique m
      → IsWithin items m
      → length (remove_keys items m) + length items ≡ length m
  length-remove_keys [] m u v w = omega arith
  length-remove_keys (x ∷ items) m u v w =
      let rest =
        length-remove_keys items (Dict.remove m x.0) u.1 (remove-IsUnique m x.0 v)
          (IsWithin-remove x.0 x.1 items m u.0 w) in
      omega (arith, rest, length-remove m x.0 v, within-found x.0 x.1 items m w)

-- The first items of a list, and those behind them.
pub get-take-drop :
    (n : ℕ) (items : Dict Bytes ℤ) (key : Bytes)
    → Dict.get items key ≡ elim (Dict.get (take n items) key) [
      | some time ↦ some time
      | none ↦ Dict.get (drop n items) key
    ]
get-take-drop zero items key = refl
get-take-drop (suc n) [] key = refl
get-take-drop (suc n) (x ∷ items) key = ground (arith, get-take-drop n items key)

pub take-IsUnique : (n : ℕ) (items : Dict Bytes ℤ) → IsUnique items → IsUnique (take n items)
take-IsUnique zero items u = tt
take-IsUnique (suc n) [] u = tt
take-IsUnique (suc n) (x ∷ items) u =
    (ground (arith, u.0, get-take-drop n items x.0), take-IsUnique n items u.1)

From-get :
    (time : ℤ) (items : Dict Bytes ℤ) (key : Bytes) (t : ℤ)
    → From time items
    → Dict.get items key ≡ some t
    → leb_ℤ time t ≡ true
From-get time [] key t f h = cc
From-get time (x ∷ items) key t f h = ground (arith, From-get time items key t f.1)

From-drop : (n : ℕ) (time : ℤ) (items : Dict Bytes ℤ) → From time items → From time (drop n items)
From-drop zero time items f = f
From-drop (suc n) time [] f = f
From-drop (suc n) time (x ∷ items) f = From-drop n time items f.1

-- In a sorted list the first items are no later than those behind them.
pub sorted-take-drop :
    (n : ℕ) (items : Dict Bytes ℤ) (j k : Bytes) (s t : ℤ)
    → IsSorted items
    → Dict.get (take n items) j ≡ some s
    → Dict.get (drop n items) k ≡ some t
    → leb_ℤ s t ≡ true
sorted-take-drop zero items j k s t o p q = cc
sorted-take-drop (suc n) [] j k s t o p q = cc
sorted-take-drop (suc n) (x ∷ items) j k s t o p q = ground (
  arith,
  From-get x.1 (drop n items) k t (From-drop n x.1 items o.0),
  sorted-take-drop n items j k s t o.1,
)
