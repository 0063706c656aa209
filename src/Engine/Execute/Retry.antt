-- ===== src/Engine/Execute/Retry.antt =====
-- src/parser/engine.rs: how often a statement is tried.
use kssql.Common.{
  ℕ, zero, suc, ◌≤◌, ◌<◌, ◌≡◌, refl, ap, ◌∙◌, ◌⊎◌, inl, inr, true, Bool-cases, arith,
}
use mathlib.Core.Logic.{⊎_elim}
use kssql.Common.Result.{Result, Error, ok, err, Result-cases}
use kssql.Common.Exec.{Exec}
use kssql.Engine.Execute.{retry, is_conflict}

-- The result is a conflict.
abbrev pub IsConflict : {A : Type 0} → Result A → Type 0
IsConflict r = (e : Error) × (r ≡ err e) × (is_conflict e ≡ true)

module _ {S A : Type 0} where
  -- the state after so many attempts
  abbrev pub attempts : ℕ → Exec S A → S → S
  attempts zero attempt s = s
  attempts (suc n) attempt s = attempts n attempt (attempt s).1

  retry_final :
      (n : ℕ) (attempt : Exec S A) (s : S) (r : Result A)
      → (attempt s).0 ≡ r
      → (IsConflict r → ⊥)
      → retry (suc n) attempt s ≡ attempt s
  unfolding retry
  retry_final n attempt s (ok a) e no_conflict = rw (retry, e) refl
  retry_final n attempt s (err x) e no_conflict = elim (Bool-cases (is_conflict x)) [
    | inl conflict ↦ absurd (no_conflict (x, refl, conflict))
    | inr final ↦ rw (retry, e, final) refl
  ]

  retry_again :
      (n : ℕ) (attempt : Exec S A) (s : S) (e : Error)
      → (attempt s).0 ≡ err e
      → is_conflict e ≡ true
      → retry (suc n) attempt s ≡ retry n attempt (attempt s).1
  unfolding retry
  retry_again n attempt s e failed again = rw (retry, failed, again) refl

  -- The loop ends after `k` failed attempts, at most as many as there are retries: each of these was a
  -- conflict, the result is that of the next attempt, and that is no conflict or there are no retries
  -- left.
  pub retry_lem :
      (n : ℕ) (attempt : Exec S A) (s : S)
      → (k : ℕ) × (k ≤ n)
        × ((i : ℕ) → i < k → IsConflict (attempt (attempts i attempt s)).0)
        × (retry n attempt s ≡ attempt (attempts k attempt s))
        × ((k ≡ n) ⊎ (IsConflict (attempt (attempts k attempt s)).0 → ⊥))
  unfolding retry
  retry_lem zero attempt s = (0, omega arith, (λ i h. absurd (omega arith)), refl, inl refl)
  retry_lem (suc n) attempt s = elim (Result-cases (attempt s).0) [
    | inl (a, fine) ↦
        let final = λ (c : IsConflict (attempt s).0). absurd (ground (arith, c.1, fine)) in
        (
          0,
          omega arith,
          (λ i h. absurd (omega arith)),
          retry_final n attempt s (attempt s).0 refl final,
          inr final,
        )
    | inr (e, failed) ↦ elim (Bool-cases (is_conflict e)) [
      | inr other ↦
          let final =
            λ (c : IsConflict (attempt s).0). absurd (ground (arith, c.1, c.2, failed, other)) in
          (
            0,
            omega arith,
            (λ i h. absurd (omega arith)),
            retry_final n attempt s (attempt s).0 refl final,
            inr final,
          )
      | inl again ↦
          let (k, few, all, ends, stop) = retry_lem n attempt (attempt s).1 in
          (
            suc k,
            omega (arith, few),
            earlier s attempt k e failed again all,
            retry_again n attempt s e failed again ∙ ends,
            ⊎_elim (λ same. inl (ap suc same)) (λ final. inr final) stop,
          )
    ]
  ]
    where
      earlier :
          (s : S) (attempt : Exec S A) (k : ℕ) (e : Error)
          → (attempt s).0 ≡ err e
          → is_conflict e ≡ true
          → ((i : ℕ) → i < k → IsConflict (attempt (attempts i attempt (attempt s).1)).0)
          → (i : ℕ) → i < suc k
          → IsConflict (attempt (attempts i attempt s)).0
      earlier s attempt k e failed again all zero h = (e, failed, again)
      earlier s attempt k e failed again all (suc i) h = all i (omega arith)
