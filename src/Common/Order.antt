-- ===== src/Common/Order.antt =====
-- The order of `Vec<u8>`: lexicographic, a prefix first.
use Prim.Native.Nat.{compare, Ordering}
use mathlib.Core.Path.{◌≡◌, refl}
use mathlib.Core.Logic.{◌⊎◌}
use mathlib.Core.Bool.{Bool, true, false}
use mathlib.Core.List.{[], ◌∷◌}
use native.Mathlib.Omega.{arith}
use kssql.Common.Eq.{Bytes}

unfoldable pub bytes_lt : Bytes → Bytes → Bool
bytes_lt [] [] = false
bytes_lt [] (y ∷ ys) = true
bytes_lt (x ∷ xs) [] = false
bytes_lt (x ∷ xs) (y ∷ ys) =
    let rest = bytes_lt xs ys in
    elim (compare x y) [ Ordering.lt ↦ true | Ordering.eq ↦ rest | Ordering.gt ↦ false ]

infix 50 ◌≺◌
abbrev pub ◌≺◌ : Bytes → Bytes → Type 0
a ≺ b = bytes_lt a b ≡ true

pub lt_irrefl : (a : Bytes) → bytes_lt a a ≡ false
unfolding bytes_lt
lt_irrefl [] = refl
lt_irrefl (x ∷ a) = ground (arith, lt_irrefl a)

pub lt_asymm : (a b : Bytes) → a ≺ b → bytes_lt b a ≡ false
unfolding bytes_lt
lt_asymm [] [] h = refl
lt_asymm [] (y ∷ b) h = refl
lt_asymm (x ∷ a) [] h = ground arith
lt_asymm (x ∷ a) (y ∷ b) h = ground (arith, lt_asymm a b)

pub lt_trans : (a b c : Bytes) → a ≺ b → b ≺ c → a ≺ c
unfolding bytes_lt
lt_trans [] [] c h k = ground arith
lt_trans [] (y ∷ b) [] h k = ground arith
lt_trans [] (y ∷ b) (z ∷ c) h k = refl
lt_trans (x ∷ a) [] c h k = ground arith
lt_trans (x ∷ a) (y ∷ b) [] h k = ground arith
lt_trans (x ∷ a) (y ∷ b) (z ∷ c) h k = ground (arith, lt_trans a b c)

pub lt_total : (a b : Bytes) → (a ≺ b) ⊎ (a ≡ b) ⊎ (b ≺ a)
unfolding bytes_lt
lt_total [] [] = ground arith
lt_total [] (y ∷ b) = ground arith
lt_total (x ∷ a) [] = ground arith
lt_total (x ∷ a) (y ∷ b) = ground (arith, lt_total a b)
