-- ===== src/Storage/MemoryTier/Sort.antt =====
-- src/storage/mod.rs: `items.sort_by_key(|k| k.1)`, a stable sort by the time of the last write.
use kssql.Common.{
  ◌≡◌, refl, true, some, none, List, [], ◌∷◌, Bytes, length, All, arith, if◌then◌else◌, ◌=?◌,
  bytes_equality, bytes_eq_iff, Bool-cases, inl, inr,
}
use kssql.Common.Int.{ℤ, leb_ℤ, leb_ℤ_total, leb_ℤ_trans}
use kssql.Common.Dict
use kssql.Common.Dict.{Dict, IsUnique}

unfoldable pub insert_sorted : Bytes × ℤ → List (Bytes × ℤ) → List (Bytes × ℤ)
insert_sorted x [] = x ∷ []
insert_sorted x (y ∷ ys) = if leb_ℤ x.1 y.1 then x ∷ y ∷ ys else y ∷ insert_sorted x ys

unfoldable pub sort_by_key : List (Bytes × ℤ) → List (Bytes × ℤ)
unfolding insert_sorted
sort_by_key [] = []
sort_by_key (x ∷ xs) = insert_sorted x (sort_by_key xs)

-- No item is later than those behind it.
abbrev pub From : ℤ → List (Bytes × ℤ) → Type 0
From time l = All (λ (x : Bytes × ℤ). leb_ℤ time x.1 ≡ true) l

abbrev pub IsSorted : List (Bytes × ℤ) → Type 0
IsSorted [] = Unit
IsSorted (x ∷ xs) = From x.1 xs × IsSorted xs

From-mono : (a b : ℤ) (l : List (Bytes × ℤ)) → leb_ℤ a b ≡ true → From b l → From a l
From-mono a b [] h f = tt
From-mono a b (x ∷ l) h f = (leb_ℤ_trans a b x.1 h f.0, From-mono a b l h f.1)

From-insert_sorted :
    (time : ℤ) (x : Bytes × ℤ) (l : List (Bytes × ℤ))
    → leb_ℤ time x.1 ≡ true
    → From time l
    → From time (insert_sorted x l)
unfolding insert_sorted
From-insert_sorted time x [] h f = (h, tt)
From-insert_sorted time x (y ∷ l) h f = ground (arith, From-insert_sorted time x l)

insert_sorted-IsSorted :
    (x : Bytes × ℤ) (l : List (Bytes × ℤ)) → IsSorted l → IsSorted (insert_sorted x l)
unfolding insert_sorted
insert_sorted-IsSorted x [] s = (tt, tt)
insert_sorted-IsSorted x (y ∷ l) s = elim (Bool-cases (leb_ℤ x.1 y.1)) [
  | inl le ↦ rw le ((le, From-mono x.1 y.1 l le s.0), s)
  | inr gt ↦ rw gt (
    From-insert_sorted y.1 x l (ground (arith, leb_ℤ_total x.1 y.1)) s.0,
    insert_sorted-IsSorted x l s.1,
  )
]

pub sort_by_key-IsSorted : (l : List (Bytes × ℤ)) → IsSorted (sort_by_key l)
unfolding sort_by_key
sort_by_key-IsSorted [] = tt
sort_by_key-IsSorted (x ∷ l) = insert_sorted-IsSorted x (sort_by_key l) (sort_by_key-IsSorted l)

get-insert_sorted :
    (x : Bytes × ℤ) (l : List (Bytes × ℤ)) (key : Bytes)
    → Dict.get l x.0 ≡ none
    → Dict.get (insert_sorted x l) key ≡ (if x.0 =? key then some x.1 else Dict.get l key)
unfolding insert_sorted
get-insert_sorted x [] key h = refl
get-insert_sorted x (y ∷ l) key h = ground (
  arith,
  bytes_eq_iff x.0 key,
  bytes_eq_iff y.0 key,
  bytes_eq_iff y.0 x.0,
  get-insert_sorted x l key,
)

-- The sort keeps what is found under each key.
pub get-sort_by_key :
    (l : Dict Bytes ℤ) (key : Bytes) → IsUnique l → Dict.get (sort_by_key l) key ≡ Dict.get l key
unfolding sort_by_key
get-sort_by_key [] key u = refl
get-sort_by_key (x ∷ l) key u =
    ground
      (arith, get-sort_by_key l key, get-sort_by_key l x.0, get-insert_sorted x (sort_by_key l) key)

insert_sorted-IsUnique :
    (x : Bytes × ℤ) (l : List (Bytes × ℤ))
    → Dict.get l x.0 ≡ none
    → IsUnique l
    → IsUnique (insert_sorted x l)
unfolding insert_sorted
insert_sorted-IsUnique x [] h u = (refl, tt)
insert_sorted-IsUnique x (y ∷ l) h u = ground (
  arith,
  bytes_eq_iff x.0 y.0,
  bytes_eq_iff y.0 x.0,
  get-insert_sorted x l y.0,
  insert_sorted-IsUnique x l,
)

pub sort_by_key-IsUnique : (l : Dict Bytes ℤ) → IsUnique l → IsUnique (sort_by_key l)
unfolding sort_by_key
sort_by_key-IsUnique [] u = tt
sort_by_key-IsUnique (x ∷ l) u =
    insert_sorted-IsUnique x (sort_by_key l) (rw (get-sort_by_key l x.0 u.1) u.0)
      (sort_by_key-IsUnique l u.1)

length-insert_sorted :
    (x : Bytes × ℤ) (l : List (Bytes × ℤ)) → length (insert_sorted x l) ≡ length (x ∷ l)
unfolding insert_sorted
length-insert_sorted x [] = refl
length-insert_sorted x (y ∷ l) = ground (arith, length-insert_sorted x l)

pub length-sort_by_key : (l : List (Bytes × ℤ)) → length (sort_by_key l) ≡ length l
unfolding sort_by_key
length-sort_by_key [] = refl
length-sort_by_key (x ∷ l) =
    ground (arith, length-insert_sorted x (sort_by_key l), length-sort_by_key l)
