-- ===== src/Common/Eq.antt =====
-- Equality tests as an interface, for numbers and for byte strings (`Vec<u8>` and `String` keys).
use Prim.Native.Nat.{ℕ}
use mathlib.Core.Path.{◌≡◌}
use mathlib.Core.Logic.{◌↔◌}
use mathlib.Core.Bool.{Bool, true, false, ◌&&◌}
use mathlib.Core.List.{List, [], ◌∷◌}
use native.Mathlib.Omega.{arith}
use kssql.Common.Lists.{length, replicate, length-replicate}
use kssql.Common.Tests.{◌==◌, ==_iff}

abbrev pub IsEq {ℓ} : {A : Type ℓ} → (A → A → Bool) → Type ℓ
IsEq {A} test = (a b : A) → (test a b ≡ true) ↔ (a ≡ b)

pub record Equality {ℓ} (A : Type ℓ) : Type ℓ where
  pub beq : A → A → Bool
  pub beq_iff : IsEq beq

infix 50 ◌=?◌
abbrev pub ◌=?◌ {ℓ} : {A : Type ℓ} ⦃e : Equality A⦄ → A → A → Bool
◌=?◌ ⦃e⦄ = e.beq

-- A byte string. The bound on each byte is a hypothesis where it matters.
abbrev pub Bytes : Type 0
Bytes = List ℕ

-- `n` zero bytes
abbrev pub zeros : ℕ → Bytes
zeros n = replicate n 0

pub length-zeros : (n : ℕ) → length (zeros n) ≡ n
length-zeros n = length-replicate n 0

abbrev pub bytes_eq : Bytes → Bytes → Bool
bytes_eq [] [] = true
bytes_eq [] (y ∷ ys) = false
bytes_eq (x ∷ xs) [] = false
bytes_eq (x ∷ xs) (y ∷ ys) = (x == y) && bytes_eq xs ys

pub bytes_eq_iff : IsEq bytes_eq
bytes_eq_iff [] [] = ground arith
bytes_eq_iff [] (y ∷ ys) = ground arith
bytes_eq_iff (x ∷ xs) [] = ground arith
bytes_eq_iff (x ∷ xs) (y ∷ ys) = ground (arith, bytes_eq_iff xs ys)

instance abbrev pub nat_equality : Equality ℕ
nat_equality = record { beq = ◌==◌; beq_iff = ==_iff }

instance abbrev pub bytes_equality : Equality Bytes
bytes_equality = record { beq = bytes_eq; beq_iff = bytes_eq_iff }
