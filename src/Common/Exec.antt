-- ===== src/Common/Exec.antt =====
-- Methods that change a state and may fail: what was written before a failure stays written.
use mathlib.Core.Path.{◌≡◌, refl}
use native.Mathlib.Omega.{arith}
use mathlib.Core.Logic.{inl, inr}
use kssql.Common.Result.{Error, Result, ok, err, Result-cases}

abbrev pub Exec : Type 0 → Type 0 → Type 0
Exec S A = S → Result A × S

module _ {S A : Type 0} where
  abbrev pub pure : A → Exec S A
  pure a s = (ok a, s)

  abbrev pub raise : Error → Exec S A
  raise e s = (err e, s)

  abbrev pub gets : (S → Result A) → Exec S A
  gets f s = (f s, s)

module _ {S A B : Type 0} where
  abbrev pub continue : Result A → (A → Exec S B) → Exec S B
  continue (ok a) f s = f a s
  continue (err e) f s = (err e, s)

  infixl 5 ◌>>=◌ ◌>>◌
  abbrev pub ◌>>=◌ : Exec S A → (A → Exec S B) → Exec S B
  ◌>>=◌ m f s = let (r, s') = m s in continue r f s'

  abbrev pub ◌>>◌ : Exec S A → Exec S B → Exec S B
  m >> n = m >>= λ _. n

module _ {S A B : Type 0} where
  -- A block keeps a transitive relation between the states before and after if its steps do.
  pub >>=-keeps :
      (R : S → S → Type 0)
      → ((s t u : S) → R s t → R t u → R s u)
      → (m : Exec S A) (f : A → Exec S B) (s : S) → R s (m s).1
      → ((a : A) → R (m s).1 (f a (m s).1).1)
      → R s ((m >>= f) s).1
  >>=-keeps R trans m f s first after = elim (Result-cases (m s).0) [
    | inl (a, fine) ↦ rw fine (trans s (m s).1 (f a (m s).1).1 first (after a))
    | inr (e, failed) ↦ rw failed first
  ]

  -- A block that succeeds has succeeded in its first step, and goes on from there.
  pub >>=-ok :
      (m : Exec S A) (f : A → Exec S B) (s : S) (b : B)
      → ((m >>= f) s).0 ≡ ok b
      → (a : A) × ((m s).0 ≡ ok a) × ((m >>= f) s ≡ f a (m s).1)
  >>=-ok m f s b h = go (m s).0 refl
    where
      go : (r : Result A) → (m s).0 ≡ r → (a : A) × ((m s).0 ≡ ok a) × ((m >>= f) s ≡ f a (m s).1)
      go (ok a) e = (a, e, rw e)
      go (err x) e = absurd (ground (arith, e, h))
