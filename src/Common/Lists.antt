-- ===== src/Common/Lists.antt =====
-- Lists measured and indexed by native numbers, under the library's names.
use Prim.Native.Nat.{ℕ, zero, suc, ◌+◌, ◌-◌, ◌<◌, min}
use mathlib.Core.Path.{◌≡◌, refl, ap}
use mathlib.Core.List.{List, [], ◌∷◌, ◌++◌}
use mathlib.Core.Option.{Option, none, some}
use native.Mathlib.Nat.{zero-add, add-zero, suc-add}
use native.Mathlib.Omega.{arith}

module _ {ℓ} {A : Type ℓ} where
  abbrev pub length : List A → ℕ
  length [] = 0
  length (x ∷ xs) = suc (length xs)

  abbrev pub get_elem? : List A → ℕ → Option A
  get_elem? [] i = none
  get_elem? (x ∷ xs) zero = some x
  get_elem? (x ∷ xs) (suc i) = get_elem? xs i

  -- A write out of bounds changes nothing.
  abbrev pub set : List A → ℕ → A → List A
  set [] i v = []
  set (x ∷ xs) zero v = v ∷ xs
  set (x ∷ xs) (suc i) v = x ∷ set xs i v

  abbrev pub take : ℕ → List A → List A
  take zero xs = []
  take (suc n) [] = []
  take (suc n) (x ∷ xs) = x ∷ take n xs

  abbrev pub drop : ℕ → List A → List A
  drop zero xs = xs
  drop (suc n) [] = []
  drop (suc n) (x ∷ xs) = drop n xs

  abbrev pub replicate : ℕ → A → List A
  replicate zero a = []
  replicate (suc n) a = a ∷ replicate n a

  -- A predicate on every item.
  abbrev pub All {κ} : (A → Type κ) → List A → Type κ
  All P [] = Unit
  All P (x ∷ xs) = P x × All P xs

module _ {ℓ} {A : Type ℓ} where
  pub length-append : (xs ys : List A) → length (xs ++ ys) ≡ length xs + length ys
  length-append [] ys = omega arith
  length-append (x ∷ xs) ys = omega (arith, length-append xs ys)

  pub length-replicate : (n : ℕ) (a : A) → length (replicate n a) ≡ n
  length-replicate zero a = refl
  length-replicate (suc n) a = ap suc (length-replicate n a)

  pub length-take : (n : ℕ) (xs : List A) → length (take n xs) ≡ min n (length xs)
  length-take zero xs = omega arith
  length-take (suc n) [] = omega arith
  length-take (suc n) (x ∷ xs) = omega (arith, length-take n xs)

  pub length-drop : (n : ℕ) (xs : List A) → length (drop n xs) ≡ length xs - n
  length-drop zero xs = omega arith
  length-drop (suc n) [] = omega arith
  length-drop (suc n) (x ∷ xs) = omega (arith, length-drop n xs)

  pub take-append-drop : (n : ℕ) (xs : List A) → take n xs ++ drop n xs ≡ xs
  take-append-drop zero xs = refl
  take-append-drop (suc n) [] = refl
  take-append-drop (suc n) (x ∷ xs) = ap (λ l. x ∷ l) (take-append-drop n xs)

  pub take-append : (n : ℕ) (xs ys : List A) → length xs ≡ n → take n (xs ++ ys) ≡ xs
  take-append zero [] ys h = refl
  take-append zero (x ∷ xs) ys h = absurd (omega arith)
  take-append (suc n) [] ys h = absurd (omega arith)
  take-append (suc n) (x ∷ xs) ys h = ap (λ l. x ∷ l) (take-append n xs ys (omega arith))

  pub drop-append : (n : ℕ) (xs ys : List A) → length xs ≡ n → drop n (xs ++ ys) ≡ ys
  drop-append zero [] ys h = refl
  drop-append zero (x ∷ xs) ys h = absurd (omega arith)
  drop-append (suc n) [] ys h = absurd (omega arith)
  drop-append (suc n) (x ∷ xs) ys h = drop-append n xs ys (omega arith)

  pub All-append {κ} : (P : A → Type κ) (xs ys : List A) → All P xs → All P ys → All P (xs ++ ys)
  All-append P [] ys hx hy = hy
  All-append P (x ∷ xs) ys hx hy = (hx.0, All-append P xs ys hx.1 hy)

  pub drop-drop : (m n : ℕ) (xs : List A) → drop (m + n) xs ≡ drop n (drop m xs)
  drop-drop zero n xs = rw zero-add
  drop-drop (suc m) zero [] = rw add-zero
  drop-drop (suc m) (suc n) [] = rw suc-add
  drop-drop (suc m) n (x ∷ xs) = rw suc-add (drop-drop m n xs)

  -- The suffix of a list behind a suffix.
  pub drop-skip :
      (m n : ℕ) (l xs ys : List A) → drop m l ≡ xs ++ ys → length xs ≡ n → drop (m + n) l ≡ ys
  drop-skip m n l xs ys h e = rw (drop-drop m n l, h) (drop-append n xs ys e)

  pub length-suffix :
      (m : ℕ) (l xs : List A) → drop m l ≡ xs → m < length l + 1 → length l ≡ m + length xs
  length-suffix m l xs h b = omega (arith, ap length h, length-drop m l)

  pub replicate-add : (m n : ℕ) (a : A) → replicate (m + n) a ≡ replicate m a ++ replicate n a
  replicate-add zero n a = rw zero-add
  replicate-add (suc m) n a = rw suc-add (ap (λ l. a ∷ l) (replicate-add m n a))

  pub All-split {κ} : (P : A → Type κ) (xs ys : List A) → All P (xs ++ ys) → All P xs × All P ys
  All-split P [] ys h = (tt, h)
  All-split P (x ∷ xs) ys h = let (l, r) = All-split P xs ys h.1 in ((h.0, l), r)

abbrev pub cons? {ℓ} : {A : Type ℓ} → A → Option (List A) → Option (List A)
cons? x none = none
cons? x (some xs) = some (x ∷ xs)

-- `Vec::insert`; `none` where the index is past the end (the source panics).
abbrev pub insert_at? {ℓ} : {A : Type ℓ} → List A → ℕ → A → Option (List A)
insert_at? xs zero v = some (v ∷ xs)
insert_at? [] (suc i) v = none
insert_at? (x ∷ xs) (suc i) v = cons? x (insert_at? xs i v)

-- `v[i] = x`; `none` where the index is out of bounds.
abbrev pub set? {ℓ} : {A : Type ℓ} → List A → ℕ → A → Option (List A)
set? [] i v = none
set? (x ∷ xs) zero v = some (v ∷ xs)
set? (x ∷ xs) (suc i) v = cons? x (set? xs i v)

-- `Vec::remove`
abbrev pub erase_at? {ℓ} : {A : Type ℓ} → List A → ℕ → Option (A × List A)
erase_at? [] i = none
erase_at? (x ∷ xs) zero = some (x, xs)
erase_at? (x ∷ xs) (suc i) = elim (erase_at? xs i) [ none ↦ none | some (y, ys) ↦ some (y, x ∷ ys) ]

-- `Vec::split_off`: what stays and what is split off
abbrev pub split_off? {ℓ} : {A : Type ℓ} → List A → ℕ → Option (List A × List A)
split_off? xs zero = some ([], xs)
split_off? [] (suc n) = none
split_off? (x ∷ xs) (suc n) = elim (split_off? xs n) [
  | none ↦ none
  | some (ys, zs) ↦ some (x ∷ ys, zs)
]
