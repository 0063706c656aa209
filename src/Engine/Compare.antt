-- ===== src/Engine/Compare.antt =====
-- src/parser/engine.rs: what a comparison of a WHERE clause means.
use kssql.Common.{
  ℕ, ◌<◌, ◌≡◌, ◌≢◌, ◌↔◌, ◌⊎◌, refl, ap, true, false, some, [], ◌∷◌, ◌++◌, All, Bytes, bytes_eq,
  bytes_eq_iff, Bool-cases, bytes_equality, inl, inr, arith,
}
use kssql.Common.Dict
use kssql.Common.Dict.{Dict}
use kssql.Common.Order.{bytes_lt}
use kssql.Engine.Filter.{
  binary_op, identifier, value, eq, not_eq, gt, lt, other_operator, compare, without_quotes,
  get_data, evaluate_where,
}

-- The order of bytes without a loop: behind a part that both have in common, the first ends, or has the
-- smaller byte.
abbrev pub ComesBefore : Bytes → Bytes → Type 0
ComesBefore l r =
    (same : Bytes) × (((y : ℕ) × (after : Bytes) × (l ≡ same) × (r ≡ same ++ y ∷ after))
      ⊎ ((x : ℕ) × (y : ℕ) × (rest : Bytes) × (after : Bytes) × (x < y)
          × (l ≡ same ++ x ∷ rest)
          × (r ≡ same ++ y ∷ after)))

lt-ComesBefore : (l r : Bytes) → bytes_lt l r ≡ true → ComesBefore l r
unfolding bytes_lt
lt-ComesBefore [] [] h = absurd (ground (arith, h))
lt-ComesBefore [] (y ∷ r) h = ([], inl (y, r, refl, refl))
lt-ComesBefore (x ∷ l) [] h = absurd (ground (arith, h))
lt-ComesBefore (x ∷ l) (y ∷ r) h =
    let cases : (x < y) ⊎ ((x ≡ y) × (bytes_lt l r ≡ true)) = ground (arith, h) in
    elim cases [
      | inl smaller ↦ ([], inr (x, y, l, r, smaller, refl, refl))
      | inr (e, later) ↦
          let (same, how) = lt-ComesBefore l r later in
          (
            x ∷ same,
            elim how [
              | inl (b, after, p, q) ↦
                  inl (b, after, ap (λ s. x ∷ s) p, rw (← e) (ap (λ s. x ∷ s) q))
              | inr (a, b, rest, after, small, p, q) ↦
                  inr (a, b, rest, after, small, ap (λ s. x ∷ s) p, rw (← e) (ap (λ s. x ∷ s) q))
            ],
          )
    ]

bytes_lt-prefix : (same : Bytes) (y : ℕ) (after : Bytes) → bytes_lt same (same ++ y ∷ after) ≡ true
unfolding bytes_lt
bytes_lt-prefix [] y after = refl
bytes_lt-prefix (x ∷ same) y after = ground (arith, bytes_lt-prefix same y after)

bytes_lt-differ :
    (same : Bytes) (x y : ℕ) (rest after : Bytes)
    → x < y
    → bytes_lt (same ++ x ∷ rest) (same ++ y ∷ after) ≡ true
unfolding bytes_lt
bytes_lt-differ [] x y rest after h = ground arith
bytes_lt-differ (z ∷ same) x y rest after h = ground (arith, bytes_lt-differ same x y rest after h)

ComesBefore-lt : (l r : Bytes) → ComesBefore l r → bytes_lt l r ≡ true
ComesBefore-lt l r (same, inl (y, after, p, q)) = rw (p, q) (bytes_lt-prefix same y after)
ComesBefore-lt l r (same, inr (x, y, rest, after, small, p, q)) =
    rw (p, q) (bytes_lt-differ same x y rest after small)

-- A text in quotes, without a quote in it, stands for itself.
without_quotes-plain : (b : Bytes) → All (λ c. c ≢ 39) b → without_quotes (b ++ 39 ∷ []) ≡ b
without_quotes-plain [] h = refl
without_quotes-plain (c ∷ b) h = ground (arith, without_quotes-plain b h.1, h.0)

compare_eq : (a b : Bytes) → (compare eq a b ≡ true) ↔ ((a ≡ b) × (a ≢ []))
compare_eq [] [] = ((λ h. absurd (ground (arith, h))), (λ h. absurd (h.1 refl)))
compare_eq [] (c ∷ b) = ((λ h. absurd (ground (arith, h))), (λ h. absurd (h.1 refl)))
compare_eq (c ∷ a) b = (
  (λ h. ((bytes_eq_iff (c ∷ a) b).0 h, λ e. absurd (cc e))),
  (λ h. (bytes_eq_iff (c ∷ a) b).1 h.0),
)

compare_not_eq : (a b : Bytes) → (compare not_eq a b ≡ true) ↔ (a ≢ b)
compare_not_eq a b = (
  (λ h e. absurd (ground (arith, h, (bytes_eq_iff a b).1 e))),
  (λ ne. elim (Bool-cases (bytes_eq a b)) [
    | inl same ↦ absurd (ne ((bytes_eq_iff a b).0 same))
    | inr other ↦ rw other refl
  ]),
)

compare_lem :
    (a b : Bytes)
    → ((compare eq a b ≡ true) ↔ ((a ≡ b) × (a ≢ [])))
      × ((compare not_eq a b ≡ true) ↔ (a ≢ b))
      × ((compare lt a b ≡ true) ↔ ComesBefore a b)
      × ((compare gt a b ≡ true) ↔ ComesBefore b a)
      × (compare other_operator a b ≡ false)
compare_lem a b = (
  compare_eq a b,
  compare_not_eq a b,
  (lt-ComesBefore a b, ComesBefore-lt a b),
  (lt-ComesBefore b a, ComesBefore-lt b a),
  refl,
)

-- A comparison of a column that the row has with a text in quotes, without a quote in it: `=` holds just when
-- the value of the column is the text, and not empty; `<>` just when it is not the text; `<` and `>`
-- just when it comes before or behind the text in the order of bytes; and any other operator never holds.
pub evaluate_where_lem :
    (row : Dict Bytes Bytes) (column a b : Bytes)
    → Dict.get row column ≡ some a
    → All (λ c. c ≢ 39) b
    → ((evaluate_where (binary_op (identifier column) eq (value (39 ∷ b ++ 39 ∷ []))) row ≡ true)
        ↔ ((a ≡ b) × (a ≢ [])))
      × ((evaluate_where (binary_op (identifier column) not_eq (value (39 ∷ b ++ 39 ∷ []))) row
            ≡ true)
          ↔ (a ≢ b))
      × ((evaluate_where (binary_op (identifier column) lt (value (39 ∷ b ++ 39 ∷ []))) row ≡ true)
          ↔ ComesBefore a b)
      × ((evaluate_where (binary_op (identifier column) gt (value (39 ∷ b ++ 39 ∷ []))) row ≡ true)
          ↔ ComesBefore b a)
      × (evaluate_where
            (binary_op (identifier column) other_operator (value (39 ∷ b ++ 39 ∷ [])))
            row
          ≡ false)
unfolding evaluate_where get_data
evaluate_where_lem row column a b has plain =
    rw (has, without_quotes-plain b plain) (compare_lem a b)
