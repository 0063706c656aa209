-- ===== src/Engine/Tables.antt =====
-- src/parser/engine.rs: CREATE TABLE.
pub mod Created
use kssql.Common.{
  ℕ, Bool, false, ◌||◌, Option, none, some, List, [], ◌∷◌, Bytes, bytes_equality, if◌then◌else◌,
}
use kssql.Common.Dict
use kssql.Common.Exec.{Exec, pure, gets, ◌>>=◌, ◌>>◌}
use kssql.Common.Str.{Text, to_uppercase}
use kssql.Storage.Codec.{Codec}
use kssql.Storage.Btree.Node.{Record}
use kssql.Engine.State.{TableSchema, Engine, World, btree_insert}
use kssql.Engine.Transactions.{or_encode_failed}
use kssql.Engine.Insert.{schemas_key, new_record}
use kssql.Engine.Query.{contains_text}

-- A column of CREATE TABLE, with its options as they are printed.
pub record Column : Type 0 where
  pub name : Bytes
  pub options : List Text

-- "AUTO_INCREMENT" and "SERIAL"
abbrev pub auto_increment : Text
auto_increment = 65 ∷ 85 ∷ 84 ∷ 79 ∷ 95 ∷ 73 ∷ 78 ∷ 67 ∷ 82 ∷ 69 ∷ 77 ∷ 69 ∷ 78 ∷ 84 ∷ []

abbrev pub serial : Text
serial = 83 ∷ 69 ∷ 82 ∷ 73 ∷ 65 ∷ 76 ∷ []

-- "Table created"
abbrev pub table_created : Bytes
table_created = 84 ∷ 97 ∷ 98 ∷ 108 ∷ 101 ∷ 32 ∷ 99 ∷ 114 ∷ 101 ∷ 97 ∷ 116 ∷ 101 ∷ 100 ∷ []

abbrev pub counts : List Text → Bool
counts [] = false
counts (option ∷ options) =
    contains_text auto_increment (to_uppercase option)
    || contains_text serial (to_uppercase option)
    || counts options

-- the first column that counts up
unfoldable pub counted_column : List Column → Option Bytes
unfolding to_uppercase
counted_column [] = none
counted_column (column ∷ columns) =
    let rest = counted_column columns in if counts column.options then some column.name else rest

abbrev pub names_of : List Column → List Bytes
names_of [] = []
names_of (column ∷ columns) = column.name ∷ names_of columns

unfoldable pub new_schema : Bytes → List Column → TableSchema
unfolding counted_column
new_schema name columns = record {
  name = name;
  columns = names_of columns;
  auto_increment_col = counted_column columns;
  next_id = 1;
}

module _ (world : World) (records : Codec Record) where
  open world use {store, schema_codec}

  abbrev pub add_schema : Bytes → List Column → Engine store → Engine store
  add_schema name columns engine = record engine {
    schemas = Dict.insert engine.schemas name (new_schema name columns);
  }

  -- The map of the schemas goes to the tree, as one record.
  unfoldable pub save_schemas : Exec (Engine store) (Unit {0})
  unfolding new_record btree_insert
  save_schemas = do
    bytes ← gets (λ s. or_encode_failed (schema_codec.serialize s.schemas))
    val ← new_record world records bytes
    btree_insert world schemas_key val

  unfoldable pub create_table : Bytes → List Column → Exec (Engine store) Bytes
  unfolding new_schema save_schemas
  create_table name columns engine =
      (save_schemas >> pure table_created) (add_schema name columns engine)
