-- ===== src/Engine/Filter.antt =====
-- src/parser/engine.rs: `evaluate_where`, the test of a row by a WHERE clause. An identifier or a value
-- stands in an expression as sqlparser prints it.
use kssql.Common.{
  Bool, true, false, not, ◌&&◌, Option, none, some, List, [], ◌∷◌, ◌++◌, Bytes, bytes_equality,
  bytes_eq, ◌==◌, if◌then◌else◌, length, drop, ◌-◌,
}
use kssql.Common.Dict
use kssql.Common.Dict.{Dict}
use kssql.Common.Order.{bytes_lt}

pub data Operator : Type 0 where
  eq not_eq gt lt other_operator : Operator

-- A compound identifier has one part at least.
pub data Expr : Type 0 where
  binary_op : Expr → Operator → Expr → Expr
  identifier : Bytes → Expr
  compound_identifier : Bytes → List Bytes → Expr
  value : Bytes → Expr
  nested : Expr → Expr
  other_expr : Expr

-- `join(".")`
abbrev pub join_dots : Bytes → List Bytes → Bytes
join_dots first [] = first
join_dots first (part ∷ parts) = first ++ 46 ∷ join_dots part parts

abbrev pub last_part : Bytes → List Bytes → Bytes
last_part first [] = first
last_part first (part ∷ parts) = last_part part parts

abbrev pub ends_with : Bytes → Bytes → Bool
ends_with suffix s = bytes_eq (drop (length s - length suffix) s) suffix

-- `replace("'", "")`
abbrev pub without_quotes : Bytes → Bytes
without_quotes [] = []
without_quotes (c ∷ s) = let rest = without_quotes s in if c == 39 then rest else c ∷ rest

-- `row.keys().find(...)` with the value under the key that is found
abbrev pub find_suffix : Bytes → Dict Bytes Bytes → Option Bytes
find_suffix suffix [] = none
find_suffix suffix ((key, v) ∷ row) =
    let rest = find_suffix suffix row in if ends_with suffix key then some v else rest

abbrev pub or_empty : Option Bytes → Bytes
or_empty none = []
or_empty (some v) = v

abbrev pub or_else : Option Bytes → Option Bytes → Option Bytes
or_else none second = second
or_else (some v) second = some v

unfoldable pub get_data : Dict Bytes Bytes → Expr → Bytes
get_data row (identifier id) = or_empty (or_else (Dict.get row id) (find_suffix (46 ∷ id) row))
get_data row (compound_identifier first parts) =
    or_empty (or_else (Dict.get row (join_dots first parts)) (Dict.get row (last_part first parts)))
get_data row (value v) = without_quotes v
get_data row (binary_op l op r) = []
get_data row (nested e) = []
get_data row other_expr = []

abbrev pub is_empty : Bytes → Bool
is_empty [] = true
is_empty (c ∷ s) = false

abbrev pub compare : Operator → Bytes → Bytes → Bool
compare eq l r = if is_empty l && is_empty r then false else bytes_eq l r
compare not_eq l r = not (bytes_eq l r)
compare gt l r = bytes_lt r l
compare lt l r = bytes_lt l r
compare other_operator l r = false

unfoldable pub evaluate_where : Expr → Dict Bytes Bytes → Bool
unfolding get_data bytes_lt
evaluate_where (binary_op l op r) row = compare op (get_data row l) (get_data row r)
evaluate_where (nested e) row = evaluate_where e row
evaluate_where (identifier id) row = true
evaluate_where (compound_identifier first parts) row = true
evaluate_where (value v) row = true
evaluate_where other_expr row = true
