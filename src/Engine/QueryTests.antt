-- ===== src/Engine/QueryTests.antt =====
-- src/parser/engine.rs: a join and a retried statement, and the theorems at concrete inputs.
use kssql.Common.{
  ℕ, zero, suc, ◌≤◌, ◌<◌, ◌≡◌, refl, ◌⊎◌, true, Option, some, List, [], ◌∷◌, Bytes, length, All,
  bytes_equality, nat_equality,
}
use kssql.Common.Result.{ok, err, transaction_conflict}
use kssql.Common.Exec.{Exec}
use kssql.Engine.Filter.{Expr, binary_op, identifier, eq, not_eq, value, evaluate_where}
use kssql.Engine.Rows.{Row}
use kssql.Engine.Query.{matches, join_rows, where_rows, limit_rows, parse_usize}
use kssql.Engine.Query.Limit.{IsWithin, limit_rows_lem}
use kssql.Engine.Execute.{retry}
use kssql.Engine.Execute.Retry.{IsConflict, attempts, retry_lem}

abbrev a : Bytes
a = 97 ∷ []

abbrev b : Bytes
b = 98 ∷ []

abbrev left : List Row
left = ((a, 49 ∷ []) ∷ []) ∷ ((a, 50 ∷ []) ∷ []) ∷ []

abbrev right : List Row
right = ((b, 49 ∷ []) ∷ []) ∷ ((b, 50 ∷ []) ∷ []) ∷ ((b, 50 ∷ []) ∷ []) ∷ []

-- ON a = b
abbrev same : Option Expr
same = some (binary_op (identifier a) eq (identifier b))

-- WHERE a <> 1
abbrev not_one : Expr
not_one = binary_op (identifier a) not_eq (value (49 ∷ []))

-- Two rows of the six are left, and one of these is within the limit.
one_of_two :
    length (limit_rows (some (49 ∷ [])) (where_rows (some not_one) a (join_rows same left right)))
    ≡ 1
unfolding limit_rows where_rows join_rows
one_of_two = refl

limit_rows_lem_example :
    All
      (λ row. (matches same row ≡ true) × (evaluate_where not_one row ≡ true))
      (limit_rows (some (49 ∷ [])) (where_rows (some not_one) a (join_rows same left right)))
    × (length
          (limit_rows (some (49 ∷ [])) (where_rows (some not_one) a (join_rows same left right)))
        ≤ 6)
    × IsWithin (parse_usize (49 ∷ [])) (
        length
          (limit_rows (some (49 ∷ [])) (where_rows (some not_one) a (join_rows same left right))))
limit_rows_lem_example = limit_rows_lem same not_one a (49 ∷ []) left right refl

-- A statement that conflicts until it was tried twice.
abbrev third_time : Exec ℕ ℕ
third_time zero = (err transaction_conflict, 1)
third_time (suc zero) = (err transaction_conflict, 2)
third_time (suc (suc n)) = (ok n, suc (suc n))

third_time_succeeds : retry 5 third_time 0 ≡ (ok 0, 2)
unfolding retry
third_time_succeeds = refl

retry_lem_example :
    (k : ℕ) × (k ≤ 5)
    × ((i : ℕ) → i < k → IsConflict (third_time (attempts i third_time 0)).0)
    × (retry 5 third_time 0 ≡ third_time (attempts k third_time 0))
    × ((k ≡ 5) ⊎ (IsConflict (third_time (attempts k third_time 0)).0 → ⊥))
retry_lem_example = retry_lem 5 third_time 0
