-- ===== src/Common/Dict.antt =====
-- A map as an association list, in the order in which it is iterated over: `HashMap` and `DashMap`.
use Prim.Native.Nat.{ℕ, ◌+◌}
use mathlib.Core.Path.{◌≡◌, refl}
use mathlib.Core.Option.{Option, none, some}
use mathlib.Core.List.{List, [], ◌∷◌}
use native.Mathlib.Omega.{arith}
use kssql.Common.Tests.{if◌then◌else◌}
use kssql.Common.Lists.{length}
use kssql.Common.Eq.{Equality, ◌=?◌}

abbrev pub Dict {ℓ κ} : Type ℓ → Type κ → Type (ℓ ⊔ κ)
Dict K V = List (K × V)

-- 1 for a key that is there, and 0 for one that is not
abbrev pub found {κ} : {V : Type κ} → Option V → ℕ
found none = 0
found (some v) = 1

module _ {ℓ κ} {K : Type ℓ} {V : Type κ} ⦃e : Equality K⦄ where
  abbrev pub get : Dict K V → K → Option V
  get [] k = none
  get ((j, v) ∷ m) k = if j =? k then some v else get m k

  abbrev pub insert : Dict K V → K → V → Dict K V
  insert [] k v = (k, v) ∷ []
  insert ((j, w) ∷ m) k v = if j =? k then (k, v) ∷ m else (j, w) ∷ insert m k v

  abbrev pub remove : Dict K V → K → Dict K V
  remove [] k = []
  remove ((j, w) ∷ m) k = let rest = remove m k in if j =? k then rest else (j, w) ∷ rest

  -- No key stands twice.
  abbrev pub IsUnique : Dict K V → Type κ
  IsUnique [] = Unit
  IsUnique ((j, w) ∷ m) = (get m j ≡ none) × IsUnique m

module _ {ℓ κ} {K : Type ℓ} {V : Type κ} ⦃e : Equality K⦄ where
  pub get-insert :
      (m : Dict K V) (k j : K) (v : V) → get (insert m k v) j ≡ (if k =? j then some v else get m j)
  get-insert [] k j v = refl
  get-insert ((i, w) ∷ m) k j v =
      ground (arith, e.beq_iff k j, e.beq_iff i k, e.beq_iff i j, get-insert m k j v)

  pub get-remove :
      (m : Dict K V) (k j : K) → get (remove m k) j ≡ (if k =? j then none else get m j)
  get-remove [] k j = ground arith
  get-remove ((i, w) ∷ m) k j =
      ground (arith, e.beq_iff k j, e.beq_iff i k, e.beq_iff i j, get-remove m k j)

  pub insert-IsUnique : (m : Dict K V) (k : K) (v : V) → IsUnique m → IsUnique (insert m k v)
  insert-IsUnique [] k v u = (refl, tt)
  insert-IsUnique ((i, w) ∷ m) k v u =
      ground (arith, e.beq_iff i k, e.beq_iff k i, get-insert m k i v, insert-IsUnique m k v)

  pub remove-IsUnique : (m : Dict K V) (k : K) → IsUnique m → IsUnique (remove m k)
  remove-IsUnique [] k u = tt
  remove-IsUnique ((i, w) ∷ m) k u =
      ground (arith, e.beq_iff i k, e.beq_iff k i, get-remove m k i, remove-IsUnique m k)

  pub length-insert :
      (m : Dict K V) (k : K) (v : V) → length (insert m k v) + found (get m k) ≡ length m + 1
  length-insert [] k v = refl
  length-insert ((i, w) ∷ m) k v = ground (arith, length-insert m k v)

  -- a key that is not there: nothing is removed
  pub remove_absent : (m : Dict K V) (k : K) → get m k ≡ none → remove m k ≡ m
  remove_absent [] k h = refl
  remove_absent ((i, w) ∷ m) k h = ground (arith, remove_absent m k)

  pub length-remove :
      (m : Dict K V) (k : K) → IsUnique m → length (remove m k) + found (get m k) ≡ length m
  length-remove [] k u = refl
  length-remove ((i, w) ∷ m) k u =
      ground (arith, e.beq_iff i k, remove_absent m i, length-remove m k)
