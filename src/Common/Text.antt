-- ===== src/Common/Text.antt =====
-- `String` as its UTF-8 bytes, with the operations of the standard library that the engine uses.
use Prim.Native.Nat.{ℕ, zero, suc, ◌+◌, ◌-◌, ◌*◌, ◌/◌, ◌%◌, ◌<◌}
use mathlib.Core.Path.{◌≡◌, refl}
use mathlib.Core.Bool.{Bool, true, false, ◌&&◌}
use mathlib.Core.Option.{Option, none, some}
use mathlib.Core.List.{List, [], ◌∷◌, ◌++◌}
use native.Mathlib.Omega.{arith}
use kssql.Common.Tests.{if◌then◌else◌, ◌==◌, leb, ltb}
use kssql.Common.Lists.{All, All-append}
use kssql.Common.Eq.{Bytes}

abbrev pub starts_with : Bytes → Bytes → Bool
starts_with [] s = true
starts_with (p ∷ ps) [] = false
starts_with (p ∷ ps) (c ∷ s) = (p == c) && starts_with ps s

-- the replacement character, for bytes that are no UTF-8
abbrev pub replacement : Bytes
replacement = 239 ∷ 191 ∷ 189 ∷ []

-- A sequence that has begun: its bytes, how many are missing, and the bounds of the next.
abbrev pub Partial : Type 0
Partial = Option (Bytes × ℕ × ℕ × ℕ)

abbrev within : ℕ → ℕ → ℕ → Bool
within lo hi b = leb lo b && leb b hi

-- What a byte that begins a sequence gives out, and the sequence that it begins.
abbrev pub utf8_start : ℕ → Bytes × Partial
utf8_start b =
    if ltb b 128
    then (b ∷ [], none)
    else (if within 194 223 b
        then ([], some (b ∷ [], 1, 128, 191))
        else (if b == 224
            then ([], some (b ∷ [], 2, 160, 191))
            else (if b == 237
                then ([], some (b ∷ [], 2, 128, 159))
                else (if within 225 239 b
                    then ([], some (b ∷ [], 2, 128, 191))
                    else (if b == 240
                        then ([], some (b ∷ [], 3, 144, 191))
                        else (if within 241 243 b
                            then ([], some (b ∷ [], 3, 128, 191))
                            else (if b == 244
                                then ([], some (b ∷ [], 3, 128, 143))
                                else (replacement, none))))))))

abbrev pub utf8_next : Partial → ℕ → Bytes × Partial
utf8_next none b = utf8_start b
utf8_next (some (bytes, missing, lo, hi)) b =
    if within lo hi b
    then (if missing == 1
        then (bytes ++ b ∷ [], none)
        else ([], some (bytes ++ b ∷ [], missing - 1, 128, 191)))
    else (replacement ++ (utf8_start b).0, (utf8_start b).1)

abbrev pub utf8_loop : Partial → Bytes → Bytes
utf8_loop none [] = []
utf8_loop (some p) [] = replacement
utf8_loop p (b ∷ bs) = (utf8_next p b).0 ++ utf8_loop (utf8_next p b).1 bs

-- `String::from_utf8_lossy`
unfoldable pub from_utf8_lossy : Bytes → Bytes
from_utf8_lossy bytes = utf8_loop none bytes

-- A text of ASCII is left as it is.
pub from_utf8_lossy_ascii : (s : Bytes) → All (λ b. b < 128) s → from_utf8_lossy s ≡ s
unfolding from_utf8_lossy
from_utf8_lossy_ascii [] h = refl
from_utf8_lossy_ascii (b ∷ s) h = ground (arith, from_utf8_lossy_ascii s)

-- The digits of a number below the bound, with what is read so far.
abbrev pub parse_digits : ℕ → ℕ → Bytes → Option ℕ
parse_digits bound n [] = some n
parse_digits bound n (c ∷ s) =
    let rest = parse_digits bound (n * 10 + (c - 48)) s in
    if leb 48 c && leb c 57 && ltb (n * 10 + (c - 48)) bound then rest else none

-- `parse` of an unsigned number: one sign may stand in front, and there is a digit at least.
unfoldable pub parse_unsigned : ℕ → Bytes → Option ℕ
parse_unsigned bound [] = none
parse_unsigned bound (c ∷ []) = parse_digits bound 0 (c ∷ [])
parse_unsigned bound (c ∷ d ∷ s) =
    if c == 43 then parse_digits bound 0 (d ∷ s) else parse_digits bound 0 (c ∷ d ∷ s)

parse_digits-bounded :
    (bound n : ℕ) (s : Bytes) (m : ℕ) → n < bound → parse_digits bound n s ≡ some m → m < bound
parse_digits-bounded bound n [] m h e = ground arith
parse_digits-bounded bound n (c ∷ s) m h e =
    ground (arith, parse_digits-bounded bound (n * 10 + (c - 48)) s m)

-- What is read is below the bound.
pub parse_unsigned-bounded :
    (bound : ℕ) (s : Bytes) (m : ℕ) → 0 < bound → parse_unsigned bound s ≡ some m → m < bound
unfolding parse_unsigned
parse_unsigned-bounded bound [] m h e = absurd (cc e)
parse_unsigned-bounded bound (c ∷ []) m h e = parse_digits-bounded bound 0 (c ∷ []) m h e
parse_unsigned-bounded bound (c ∷ d ∷ s) m h e =
    ground
      (arith, parse_digits-bounded bound 0 (d ∷ s) m, parse_digits-bounded bound 0 (c ∷ d ∷ s) m)

-- `split` at a character: the part before the first one, and the others.
abbrev pub split_on : ℕ → Bytes → Bytes × List Bytes
split_on at [] = ([], [])
split_on at (c ∷ s) =
    let (first, rest) = split_on at s in if c == at then ([], first ∷ rest) else (c ∷ first, rest)

-- one digit of `{:x}`
abbrev pub hex_digit : ℕ → ℕ
hex_digit d = if ltb d 10 then 48 + d else 87 + d

-- the last `n` digits
abbrev pub hex_digits : ℕ → ℕ → Bytes
hex_digits zero v = []
hex_digits (suc n) v = hex_digits n (v / 16) ++ hex_digit (v % 16) ∷ []

-- `{:016x}` of a `u64`
unfoldable pub hex16 : ℕ → Bytes
hex16 v = hex_digits 16 v

-- The decimal digits of a number, in front of those that are there. A `u64` has 20 digits at most.
abbrev pub decimal_digits : ℕ → ℕ → Bytes → Bytes
decimal_digits zero v rest = rest
decimal_digits (suc n) v rest =
    let more = decimal_digits n (v / 10) ((48 + v % 10) ∷ rest) in
    if ltb v 10 then (48 + v) ∷ rest else more

-- `to_string` of a `u64` or a `usize`
unfoldable pub to_decimal : ℕ → Bytes
to_decimal v = decimal_digits 20 v []

pub starts_with-append : (p s : Bytes) → starts_with p (p ++ s) ≡ true
starts_with-append [] s = refl
starts_with-append (c ∷ p) s = ground (arith, starts_with-append p s)

-- The digits are ASCII.
hex_digits_ascii : (n v : ℕ) → All (λ b. b < 128) (hex_digits n v)
hex_digits_ascii zero v = tt
hex_digits_ascii (suc n) v =
    All-append (λ b. b < 128) (hex_digits n (v / 16)) (hex_digit (v % 16) ∷ [])
      (hex_digits_ascii n (v / 16)) (ground arith, tt)

pub hex16_ascii : (v : ℕ) → All (λ b. b < 128) (hex16 v)
unfolding hex16
hex16_ascii v = hex_digits_ascii 16 v
