-- ===== src/Engine/Query.antt =====
-- src/parser/engine.rs: `handle_query`.
pub mod Limit
use kssql.Common.{
  ℕ, zero, suc, ◌+◌, ◌*◌, ◌-◌, ◌^◌, Bool, true, false, ◌&&◌, ◌||◌, Option, none, some, List, [],
  ◌∷◌, ◌++◌, Bytes, bytes_equality, nat_equality, bytes_eq, ◌==◌, ltb, leb, length, take, replicate,
  map, if◌then◌else◌,
}
use kssql.Common.Dict
use kssql.Common.Dict.{Dict}
use kssql.Common.Result.{
  Result, Error, ok, err, named_table_not_found, unsupported_table, unsupported_join_table, panic,
}
use kssql.Common.Exec.{Exec, pure, gets, ◌>>=◌, ◌>>◌}
use kssql.Common.Text.{starts_with, parse_unsigned, split_on}
use kssql.Storage.Codec.{Codec}
use kssql.Storage.Btree.Node.{Record}
use kssql.Engine.State.{TableSchema, Engine, World}
use kssql.Engine.Filter.{Expr, evaluate_where, find_suffix, or_else}
use kssql.Engine.Rows.{Row, qualified}
use kssql.Engine.Scan.{scan_table, scan_table_with_filter}
use kssql.Engine.Output.{Floats, Projection, is_aggregate, render, render_aggregates}
use kssql.Engine.Statements.{read_version}

-- `JoinOperator::Inner(JoinConstraint::On(expr))`, or any other
pub record Join : Type 0 where
  pub relation : Option Bytes
  pub on : Option Expr

-- Each relation of FROM is a table or another one. `selection_text` is the clause as sqlparser prints
-- it, and `limit` a number as it is written.
pub record Select : Type 0 where
  pub from : List (Option Bytes)
  pub join : Option Join
  pub selection : Option Expr
  pub selection_text : Bytes
  pub limit : Option Bytes
  pub projection : List Projection

-- `parse::<usize>`
unfoldable pub parse_usize : Bytes → Option ℕ
unfolding parse_unsigned
parse_usize s = parse_unsigned (2 ^ 64) s

-- `str::contains`
abbrev pub contains_text : Bytes → Bytes → Bool
contains_text part [] = starts_with part []
contains_text part (c ∷ s) = starts_with part (c ∷ s) || contains_text part s

-- "VECTOR_SEARCH"
abbrev pub vector_search : Bytes
vector_search = 86 ∷ 69 ∷ 67 ∷ 84 ∷ 79 ∷ 82 ∷ 95 ∷ 83 ∷ 69 ∷ 65 ∷ 82 ∷ 67 ∷ 72 ∷ []

-- The columns of one row with those of another put over them.
abbrev pub combine : Row → Row → Row
combine combined [] = combined
combine combined ((k, v) ∷ rest) = combine (Dict.insert combined k v) rest

abbrev pub matches : Option Expr → Row → Bool
matches none row = true
matches (some expr) row = evaluate_where expr row

-- the inner loop of the join
unfoldable pub join_row : Option Expr → Row → List Row → List Row
unfolding evaluate_where
join_row on l [] = []
join_row on l (r ∷ rows) =
    let rest = join_row on l rows in
    let combined = combine (combine [] l) r in if matches on combined then combined ∷ rest else rest

unfoldable pub join_rows : Option Expr → List Row → List Row → List Row
unfolding join_row
join_rows on [] right = []
join_rows on (l ∷ left) right = join_row on l right ++ join_rows on left right

unfoldable pub retain : Expr → List Row → List Row
unfolding evaluate_where
retain expr [] = []
retain expr (row ∷ rows) =
    let rest = retain expr rows in if evaluate_where expr row then row ∷ rest else rest

-- A sort by a comparison that is always equal keeps the order.
unfoldable pub where_rows : Option Expr → Bytes → List Row → List Row
unfolding retain
where_rows none text rows = rows
where_rows (some expr) text rows =
    if contains_text vector_search text then rows else retain expr rows

abbrev pub truncate : Option ℕ → List Row → List Row
truncate none rows = rows
truncate (some n) rows = take n rows

-- A limit that is no `usize` is passed over.
unfoldable pub limit_rows : Option Bytes → List Row → List Row
unfolding parse_usize
limit_rows none rows = rows
limit_rows (some n) rows = truncate (parse_usize n) rows

module _ (floats : Floats) where
  -- The end of the handler: WHERE, LIMIT, and the output.
  unfoldable pub finish_query : Select → List Bytes × List Row → Bytes
  unfolding where_rows limit_rows render render_aggregates
  finish_query select (columns, rows) =
      let rows' =
        limit_rows select.limit (where_rows select.selection select.selection_text rows) in
      if is_aggregate select.projection
      then render_aggregates floats select.projection rows'
      else render columns rows'

  module _ (world : World) (records : Codec Record) where
    open world use {store}

    abbrev pub or_unsupported : Error → Option Bytes → Result Bytes
    or_unsupported e none = err e
    or_unsupported e (some name) = ok name

    -- `from[0]`, which panics where there is no FROM
    abbrev pub first_relation : List (Option Bytes) → Result Bytes
    first_relation [] = err panic
    first_relation (relation ∷ rest) = or_unsupported unsupported_table relation

    abbrev pub schema_of : Bytes → Engine store → Result TableSchema
    schema_of table_name engine = elim (Dict.get engine.schemas table_name) [
      | none ↦ err (named_table_not_found table_name)
      | some schema ↦ ok schema
    ]

    abbrev pub columns_of : Bytes → TableSchema → List Bytes
    columns_of table_name schema = map (qualified table_name) schema.columns

    -- the rows of the first join, and the columns that are shown
    abbrev pub with_join :
        ℕ → Option Join → List Bytes → List Row → Exec (Engine store) (List Bytes × List Row)
    with_join version none columns rows = pure (columns, rows)
    with_join version (some join) columns rows = do
      right_table ← gets (λ s. or_unsupported unsupported_join_table join.relation)
      right_schema ← gets (schema_of right_table)
      right_rows ← scan_table world records right_table version
      pure (columns ++ columns_of right_table right_schema, join_rows join.on rows right_rows)

    unfoldable pub handle_query : Select → ℕ → Exec (Engine store) Bytes
    unfolding read_version scan_table_with_filter scan_table join_rows finish_query
    handle_query select conn_id = do
      version ← gets (λ s. ok (read_version world records conn_id s))
      table_name ← gets (λ s. first_relation select.from)
      schema ← gets (schema_of table_name)
      rows ← scan_table_with_filter world records table_name version select.selection
      joined ← with_join version select.join (columns_of table_name schema) rows
      pure (finish_query select joined)
