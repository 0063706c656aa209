-- ===== src/Engine/Rows.antt =====
-- src/parser/engine.rs: a row as the queries see it, and which record shows which row.
use kssql.Common.{
  ℕ, Bool, not, ◌&&◌, Option, none, some, [], ◌∷◌, ◌++◌, Bytes, bytes_equality, leb, if◌then◌else◌,
}
use kssql.Common.Dict
use kssql.Common.Dict.{Dict}
use kssql.Common.Result.{Result, ok, err, decode_failed}
use kssql.Storage.Codec.{Codec}
use kssql.Storage.Btree.Node.{Record}

-- The columns of a row, by name.
abbrev pub Row : Type 0
Row = Dict Bytes Bytes

-- "__key__"
abbrev pub key_column : Bytes
key_column = 95 ∷ 95 ∷ 107 ∷ 101 ∷ 121 ∷ 95 ∷ 95 ∷ []

-- `format!("{}.{}", table_name, column)`
abbrev pub qualified : Bytes → Bytes → Bytes
qualified table_name column = table_name ++ 46 ∷ column

-- Each column stands under its name, and under its name with the table's.
abbrev pub add_columns : Bytes → Dict Bytes Bytes → Row → Row
add_columns table_name [] row = row
add_columns table_name ((k, v) ∷ rest) row =
    add_columns table_name rest (Dict.insert (Dict.insert row k v) (qualified table_name k) v)

unfoldable pub row_of : Bytes → Bytes → Dict Bytes Bytes → Row
row_of table_name key_str base = add_columns table_name base ((key_column, key_str) ∷ [])

-- `record.version <= version && !record.is_deleted`
abbrev pub is_visible : ℕ → Record → Bool
is_visible version r = leb r.version version && not r.is_deleted

module _ (records : Codec Record) (row_codec : Codec (Dict Bytes Bytes)) where
  -- The row that the bytes of a record show at a version, if they show one.
  unfoldable pub visible_row : Bytes → ℕ → Bytes → Bytes → Result (Option Row)
  unfolding row_of
  visible_row table_name version key_str bytes = elim (records.deserialize bytes) [
    | none ↦ err decode_failed
    | some r ↦
        if is_visible version r
        then elim (row_codec.deserialize r.value) [
          | none ↦ err decode_failed
          | some base ↦ ok (some (row_of table_name key_str base))
        ]
        else ok none
  ]
