-- ===== src/Engine/Output.antt =====
-- src/parser/engine.rs: the output of `handle_query`, the rows of a table or the aggregates. The numbers
-- of the aggregates are floats, an interface here.
use kssql.Common.{
  ℕ, Bool, true, false, Option, none, some, List, [], ◌∷◌, ◌++◌, Bytes, bytes_equality, length,
  replicate, map,
}
use kssql.Common.Dict
use kssql.Common.Text.{split_on}
use kssql.Engine.Filter.{find_suffix, or_else}
use kssql.Engine.Rows.{Row}

-- The arithmetic of `f64`, with `parse` and `to_string`.
pub record Floats : Type 1 where
  pub Float : Type 0
  pub parse : Bytes → Option Float
  pub print : Float → Bytes
  pub of_count : ℕ → Float
  -- what a sum starts from
  pub empty_sum : Float
  pub add : Float → Float → Float
  pub divide : Float → Float → Float
  pub minimum : Float → Float → Float
  pub maximum : Float → Float → Float
  pub infinity : Float
  pub neg_infinity : Float

-- The functions that are known; a name stands upper-cased.
pub data FunctionName : Type 0 where
  count sum avg min max : FunctionName
  other_function : Bytes → FunctionName

-- A function with the column that is its first argument, if that is an identifier.
pub data Projection : Type 0 where
  function : FunctionName → Option Bytes → Projection
  other_projection : Projection

abbrev pub is_aggregate : List Projection → Bool
is_aggregate [] = false
is_aggregate (function (other_function name) column ∷ rest) = is_aggregate rest
is_aggregate (function count column ∷ rest) = true
is_aggregate (function sum column ∷ rest) = true
is_aggregate (function avg column ∷ rest) = true
is_aggregate (function min column ∷ rest) = true
is_aggregate (function max column ∷ rest) = true
is_aggregate (other_projection ∷ rest) = is_aggregate rest

-- `join(" | ")`
abbrev pub join_bars : List Bytes → Bytes
join_bars [] = []
join_bars (v ∷ []) = v
join_bars (v ∷ w ∷ rest) = v ++ 32 ∷ 124 ∷ 32 ∷ join_bars (w ∷ rest)

-- The head of an output: the columns, and a line of dashes under them as long as the text so far.
abbrev pub head_of : List Bytes → Bytes
head_of columns =
    let line = join_bars columns ++ 10 ∷ [] in line ++ (replicate (length line) 45 ++ 10 ∷ [])

-- the second of just two parts
abbrev pub second_part : Bytes × List Bytes → Option Bytes
second_part (first, []) = none
second_part (first, second ∷ []) = some second
second_part (first, second ∷ third ∷ rest) = none

abbrev pub get_named : Row → Option Bytes → Option Bytes
get_named row none = none
get_named row (some name) = Dict.get row name

abbrev pub or_null : Option Bytes → Bytes
or_null none = 78 ∷ 85 ∷ 76 ∷ 76 ∷ []
or_null (some v) = v

-- What stands in a column of the output: by the full name, or else by the name behind the dot.
unfoldable pub cell_text : Row → Bytes → Bytes
cell_text row column =
    or_null (or_else (Dict.get row column) (get_named row (second_part (split_on 46 column))))

abbrev pub lines_of : List Bytes → List Row → Bytes
lines_of columns [] = []
lines_of columns (row ∷ rows) =
    (join_bars (map (cell_text row) columns) ++ 10 ∷ []) ++ lines_of columns rows

unfoldable pub render : List Bytes → List Row → Bytes
unfolding cell_text
render columns rows = head_of columns ++ lines_of columns rows

module _ (floats : Floats) where
  open floats use {
    Float, parse, print, of_count, empty_sum, add, divide, minimum, maximum, infinity, neg_infinity,
  }

  -- A column's number in a row, by its name or as the suffix of one.
  abbrev pub number_in : Row → Bytes → Option Float
  number_in row column = elim (or_else (Dict.get row column) (find_suffix (46 ∷ column) row)) [
    | none ↦ none
    | some v ↦ parse v
  ]

  abbrev pub with_number : Option Float → List Float → List Float
  with_number none vals = vals
  with_number (some x) vals = x ∷ vals

  unfoldable pub numbers : List Row → Bytes → List Float
  numbers [] column = []
  numbers (row ∷ rows) column = with_number (number_in row column) (numbers rows column)

  abbrev pub fold_floats : (Float → Float → Float) → Float → List Float → Float
  fold_floats f acc [] = acc
  fold_floats f acc (x ∷ xs) = fold_floats f (f acc x) xs

  abbrev pub mean : List Float → Float
  mean [] = of_count 0
  mean (x ∷ xs) = divide (fold_floats add empty_sum (x ∷ xs)) (of_count (length (x ∷ xs)))

  -- A missing column is "*".
  abbrev pub argument : Option Bytes → Bytes
  argument none = 42 ∷ []
  argument (some column) = column

  unfoldable pub aggregate : List Row → FunctionName → Option Bytes → Float
  unfolding numbers
  aggregate rows count column = of_count (length rows)
  aggregate rows sum column = fold_floats add empty_sum (numbers rows (argument column))
  aggregate rows avg column = mean (numbers rows (argument column))
  aggregate rows min column = fold_floats minimum infinity (numbers rows (argument column))
  aggregate rows max column = fold_floats maximum neg_infinity (numbers rows (argument column))
  aggregate rows (other_function name) column = of_count 0

  abbrev pub function_text : FunctionName → Bytes
  function_text count = 67 ∷ 79 ∷ 85 ∷ 78 ∷ 84 ∷ []
  function_text sum = 83 ∷ 85 ∷ 77 ∷ []
  function_text avg = 65 ∷ 86 ∷ 71 ∷ []
  function_text min = 77 ∷ 73 ∷ 78 ∷ []
  function_text max = 77 ∷ 65 ∷ 88 ∷ []
  function_text (other_function name) = name

  -- A name and a result for each projection.
  abbrev pub aggregate_column : Projection → Bytes
  aggregate_column (function name column) = function_text name
  aggregate_column other_projection = 63 ∷ []

  abbrev pub aggregate_result : List Row → Projection → Bytes
  aggregate_result rows (function name column) = print (aggregate rows name column)
  aggregate_result rows other_projection = or_null none

  unfoldable pub render_aggregates : List Projection → List Row → Bytes
  unfolding aggregate
  render_aggregates projection rows =
      head_of (map aggregate_column projection)
      ++ (join_bars (map (aggregate_result rows) projection) ++ 10 ∷ [])
