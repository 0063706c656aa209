-- ===== src/Engine/WhereTests.antt =====
-- src/parser/engine.rs: a WHERE clause at a concrete row.
use kssql.Common.{
  ◌≡◌, ◌≢◌, ◌↔◌, refl, arith, true, false, [], ◌∷◌, ◌++◌, All, Bytes, bytes_equality,
}
use kssql.Common.Dict
use kssql.Common.Order.{bytes_lt}
use kssql.Engine.Filter.{
  binary_op, identifier, value, eq, not_eq, gt, lt, other_operator, get_data, evaluate_where,
}
use kssql.Engine.Compare.{ComesBefore, evaluate_where_lem}

abbrev age : Dict.Dict Bytes Bytes
age = ((116 ∷ 46 ∷ 97 ∷ []), (51 ∷ [])) ∷ []

-- A column is found under its table's name too, and a number is compared as text: 3 is more than 12.
as_text : evaluate_where (binary_op (identifier (97 ∷ [])) gt (value (49 ∷ 50 ∷ []))) age ≡ true
unfolding evaluate_where get_data bytes_lt
as_text = refl

abbrev three : Bytes
three = 51 ∷ []

abbrev twelve : Bytes
twelve = 49 ∷ 50 ∷ []

unquoted : All (λ c. c ≢ 39) twelve
unquoted = ((λ h. absurd (omega (arith, h))), ((λ h. absurd (omega (arith, h))), tt))

abbrev young : Dict.Dict Bytes Bytes
young = ((97 ∷ []), three) ∷ []

-- a = '12' and so on
evaluate_where_lem_example :
    ((evaluate_where (binary_op (identifier (97 ∷ [])) eq (value (39 ∷ twelve ++ 39 ∷ []))) young
        ≡ true)
      ↔ ((three ≡ twelve) × (three ≢ [])))
    × ((evaluate_where
            (binary_op (identifier (97 ∷ [])) not_eq (value (39 ∷ twelve ++ 39 ∷ [])))
            young
          ≡ true)
        ↔ (three ≢ twelve))
    × ((evaluate_where (binary_op (identifier (97 ∷ [])) lt (value (39 ∷ twelve ++ 39 ∷ []))) young
          ≡ true)
        ↔ ComesBefore three twelve)
    × ((evaluate_where (binary_op (identifier (97 ∷ [])) gt (value (39 ∷ twelve ++ 39 ∷ []))) young
          ≡ true)
        ↔ ComesBefore twelve three)
    × (evaluate_where
          (binary_op (identifier (97 ∷ [])) other_operator (value (39 ∷ twelve ++ 39 ∷ [])))
          young
        ≡ false)
evaluate_where_lem_example = evaluate_where_lem young (97 ∷ []) three twelve refl unquoted
