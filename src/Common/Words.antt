-- ===== src/Common/Words.antt =====
-- `u32` in little endian bytes.
use Prim.Native.Nat.{ℕ, ◌+◌, ◌*◌, ◌/◌, ◌%◌, ◌^◌, ◌<◌}
use mathlib.Core.Path.{◌≡◌, refl}
use mathlib.Core.List.{[], ◌∷◌}
use native.Mathlib.Omega.{arith}
use kssql.Common.Lists.{length}
use kssql.Common.Eq.{Bytes}

-- `u32::to_le_bytes`
unfoldable pub to_le_bytes : ℕ → Bytes
to_le_bytes n = n % 256 ∷ (n / 256) % 256 ∷ (n / 65536) % 256 ∷ (n / 16777216) % 256 ∷ []

-- `u32::from_le_bytes`, of zeros where the slice has not four bytes (`unwrap_or([0; 4])`)
unfoldable pub from_le_bytes : Bytes → ℕ
from_le_bytes (a ∷ b ∷ c ∷ d ∷ []) = a + 256 * b + 65536 * c + 16777216 * d
from_le_bytes _ = 0

pub from_le_bytes-to_le_bytes : (n : ℕ) → n < 2 ^ 32 → from_le_bytes (to_le_bytes n) ≡ n
unfolding from_le_bytes to_le_bytes
from_le_bytes-to_le_bytes n h = omega arith

pub length-to_le_bytes : (n : ℕ) → length (to_le_bytes n) ≡ 4
unfolding to_le_bytes
length-to_le_bytes n = refl
