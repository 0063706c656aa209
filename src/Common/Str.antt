-- ===== src/Common/Str.antt =====
-- `String` as its code points, with the operations of the standard library that src/network/server.rs and
-- `execute` of src/parser/engine.rs use.
use Prim.Native.Nat.{ℕ, zero, suc, ◌+◌, ◌-◌, ◌/◌, ◌%◌}
use mathlib.Core.Bool.{Bool, ◌||◌, ◌&&◌}
use mathlib.Core.Option.{Option, none, some}
use mathlib.Core.List.{List, [], ◌∷◌, ◌++◌}
use kssql.Common.Tests.{if◌then◌else◌, ◌==◌, leb, ltb}
use kssql.Common.Lists.{length}
use kssql.Common.Eq.{Bytes, nat_equality}
use kssql.Common.Dict
use kssql.Common.Dict.{Dict}

abbrev pub Text : Type 0
Text = List ℕ

-- the code points with the property White_Space
abbrev pub is_whitespace : ℕ → Bool
is_whitespace c =
    (leb 9 c && leb c 13)
    || (c == 32)
    || (c == 133)
    || (c == 160)
    || (c == 5760)
    || (leb 8192 c && leb c 8202)
    || (c == 8232)
    || (c == 8233)
    || (c == 8239)
    || (c == 8287)
    || (c == 12288)

abbrev pub trim_start : Text → Text
trim_start [] = []
trim_start (c ∷ s) = let rest = trim_start s in if is_whitespace c then rest else c ∷ s

-- Trailing white space goes: a character stays if it or one behind it is not white space.
abbrev pub keep_end : ℕ → Text → Text
keep_end c [] = if is_whitespace c then [] else c ∷ []
keep_end c (d ∷ s) = c ∷ d ∷ s

abbrev pub trim_end : Text → Text
trim_end [] = []
trim_end (c ∷ s) = keep_end c (trim_end s)

unfoldable pub trim : Text → Text
trim s = trim_end (trim_start s)

-- what is left behind a prefix
abbrev pub strip_prefix : Text → Text → Option Text
strip_prefix [] s = some s
strip_prefix (p ∷ ps) [] = none
strip_prefix (p ∷ ps) (c ∷ s) = let rest = strip_prefix ps s in if p == c then rest else none

-- `trim_start_matches` takes the prefix off again and again. Each time the string is shorter, so its
-- length is enough fuel.
abbrev pub strip_all : ℕ → Text → Text → Text
strip_all zero prefix s = s
strip_all (suc fuel) prefix s = elim (strip_prefix prefix s) [
  | none ↦ s
  | some rest ↦ strip_all fuel prefix rest
]

unfoldable pub trim_start_matches : Text → Text → Text
trim_start_matches prefix s = strip_all (length s) prefix s

-- The words between white space, behind a word that has begun.
abbrev pub words_after : Text → Text → List Text
words_after word [] = word ∷ []
words_after word (c ∷ s) =
    let ended = words_after [] s in
    let longer = words_after (word ++ c ∷ []) s in if is_whitespace c then word ∷ ended else longer

abbrev pub nonempty : List Text → List Text
nonempty [] = []
nonempty ([] ∷ words) = nonempty words
nonempty ((c ∷ s) ∷ words) = (c ∷ s) ∷ nonempty words

-- `split_whitespace`
unfoldable pub split_whitespace : Text → List Text
split_whitespace s = nonempty (words_after [] s)

-- `replace` of a character by nothing
abbrev pub without : ℕ → Text → Text
without at [] = []
without at (c ∷ s) = let rest = without at s in if c == at then rest else c ∷ rest

-- The characters outside ASCII whose upper case has letters of ASCII in it.
abbrev pub special_upper : Dict ℕ Text
special_upper =
    (223, 83 ∷ 83 ∷ [])
    ∷ (305, 73 ∷ [])
    ∷ (329, 700 ∷ 78 ∷ [])
    ∷ (383, 83 ∷ [])
    ∷ (496, 74 ∷ 780 ∷ [])
    ∷ (7830, 72 ∷ 817 ∷ [])
    ∷ (7831, 84 ∷ 776 ∷ [])
    ∷ (7832, 87 ∷ 778 ∷ [])
    ∷ (7833, 89 ∷ 778 ∷ [])
    ∷ (7834, 65 ∷ 702 ∷ [])
    ∷ (64256, 70 ∷ 70 ∷ [])
    ∷ (64257, 70 ∷ 73 ∷ [])
    ∷ (64258, 70 ∷ 76 ∷ [])
    ∷ (64259, 70 ∷ 70 ∷ 73 ∷ [])
    ∷ (64260, 70 ∷ 70 ∷ 76 ∷ [])
    ∷ (64261, 83 ∷ 84 ∷ [])
    ∷ (64262, 83 ∷ 84 ∷ [])
    ∷ []

abbrev pub or_itself : ℕ → Option Text → Text
or_itself c none = c ∷ []
or_itself c (some s) = s

abbrev pub upper_char : ℕ → Text
upper_char c =
    if leb 97 c && leb c 122 then (c - 32) ∷ [] else or_itself c (Dict.get special_upper c)

-- `to_uppercase`, as far as a comparison with text of ASCII sees it: the other characters outside ASCII stay
-- as they are, since none of them becomes one of ASCII.
unfoldable pub to_uppercase : Text → Text
to_uppercase [] = []
to_uppercase (c ∷ s) = upper_char c ++ to_uppercase s

-- A code point in UTF-8.
abbrev pub utf8_char : ℕ → Bytes
utf8_char c =
    if ltb c 128
    then c ∷ []
    else (if ltb c 2048
        then (192 + c / 64) ∷ (128 + c % 64) ∷ []
        else (if ltb c 65536
            then (224 + c / 4096) ∷ (128 + c / 64 % 64) ∷ (128 + c % 64) ∷ []
            else (240 + c / 262144)
              ∷ (128 + c / 4096 % 64)
              ∷ (128 + c / 64 % 64)
              ∷ (128 + c % 64)
              ∷ []))

-- `as_bytes`
unfoldable pub as_bytes : Text → Bytes
as_bytes [] = []
as_bytes (c ∷ s) = utf8_char c ++ as_bytes s
