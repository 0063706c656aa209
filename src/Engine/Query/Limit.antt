-- ===== src/Engine/Query/Limit.antt =====
-- src/parser/engine.rs: the rows that a joined query keeps, and how many.
use kssql.Common.{
  ℕ, suc, zero, ◌*◌, ◌≤◌, ◌≡◌, length-take, true, false, Option, none, some, List, [], ◌∷◌, Bytes,
  length, length-append, take, All, All-append, arith, Bool-cases, Option-cases, inl, inr,
}
use kssql.Engine.Filter.{Expr, evaluate_where}
use kssql.Engine.Rows.{Row}
use kssql.Engine.Query.{
  matches, combine, join_row, join_rows, retain, contains_text, vector_search, where_rows,
  parse_usize, limit_rows,
}

All-take : (P : Row → Type 0) (n : ℕ) (rows : List Row) → All P rows → All P (take n rows)
All-take P zero rows h = tt
All-take P (suc n) [] h = tt
All-take P (suc n) (row ∷ rows) h = (h.0, All-take P n rows h.1)

-- A row of a join satisfies its condition.
join_row-All :
    (on : Option Expr) (l : Row) (right : List Row)
    → All (λ row. matches on row ≡ true) (join_row on l right)
      × (length (join_row on l right) ≤ length right)
unfolding join_row
join_row-All on l [] = (tt, omega arith)
join_row-All on l (r ∷ right) =
    let (ih, few) = join_row-All on l right in
    elim (Bool-cases (matches on (combine (combine [] l) r))) [
      | inl yes_on ↦ rw (join_row, yes_on) ((yes_on, ih), omega (arith, few))
      | inr no_on ↦ rw (join_row, no_on) (ih, omega (arith, few))
    ]

join_rows-All :
    (on : Option Expr) (left right : List Row)
    → All (λ row. matches on row ≡ true) (join_rows on left right)
      × (length (join_rows on left right) ≤ length left * length right)
unfolding join_rows
join_rows-All on [] right = (tt, omega arith)
join_rows-All on (l ∷ left) right =
    let (ih, few) = join_rows-All on left right in
    let (here, fits) = join_row-All on l right in
    (
      All-append (λ row. matches on row ≡ true) (join_row on l right) (join_rows on left right) here
          ih,
      omega (arith, few, fits, length-append (join_row on l right) (join_rows on left right)),
    )

retain-All :
    (P : Row → Type 0) (expr : Expr) (rows : List Row)
    → All P rows
    → All (λ row. P row × (evaluate_where expr row ≡ true)) (retain expr rows)
      × (length (retain expr rows) ≤ length rows)
unfolding retain
retain-All P expr [] h = (tt, omega arith)
retain-All P expr (row ∷ rows) h =
    let (ih, few) = retain-All P expr rows h.1 in
    elim (Bool-cases (evaluate_where expr row)) [
      | inl yes_row ↦ rw (retain, yes_row) (((h.0, yes_row), ih), omega (arith, few))
      | inr no_row ↦ rw (retain, no_row) (ih, omega (arith, few))
    ]

-- A limit, if there is one, is kept.
abbrev pub IsWithin : Option ℕ → ℕ → Type 0
IsWithin none n = Unit
IsWithin (some limit) n = n ≤ limit

-- The rows of a joined query with a WHERE clause that is no vector search: each satisfies the condition
-- of the join and the clause, they are no more than there are pairs of rows, and no more than the
-- limit, if it is a number.
pub limit_rows_lem :
    (on : Option Expr) (expr : Expr) (text limit : Bytes) (left right : List Row)
    → contains_text vector_search text ≡ false
    → let rows = limit_rows (some limit) (where_rows (some expr) text (join_rows on left right)) in
      All (λ row. (matches on row ≡ true) × (evaluate_where expr row ≡ true)) rows
      × (length rows ≤ length left * length right)
      × IsWithin (parse_usize limit) (length rows)
unfolding limit_rows where_rows
limit_rows_lem on expr text limit left right plain =
    let (joined, pairs) = join_rows-All on left right in
    let (kept, fewer) =
      retain-All (λ row. matches on row ≡ true) expr (join_rows on left right) joined in
    elim (Option-cases (parse_usize limit)) [
      | inl odd ↦ rw (plain, odd) (kept, omega (arith, pairs, fewer), tt)
      | inr (m, limited) ↦
          let cut = length-take m (retain expr (join_rows on left right)) in
          rw (plain, limited)
            (All-take _ m _ kept, omega (arith, pairs, fewer, cut), omega (arith, cut))
    ]
