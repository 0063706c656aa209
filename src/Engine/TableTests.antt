-- ===== src/Engine/TableTests.antt =====
-- src/parser/engine.rs: CREATE TABLE on a tree of one empty leaf, and starts after it.
use kssql.Common.{
  ℕ, ◌<◌, ◌≡◌, refl, arith, false, Option, none, some, List, [], ◌∷◌, ◌++◌, append_assoc, Bytes,
  zeros, length, take, drop, take-append, drop-append, bytes_equality,
}
use kssql.Common.Int.{pos}
use kssql.Common.Dict
use kssql.Common.Dict.{Dict, IsUnique}
use kssql.Common.Order.{bytes_lt}
use kssql.Common.Result.{ok}
use kssql.Storage.Codec.{Codec, IsFaithful}
use kssql.Storage.MemoryTier.{new_tier, get, make_room}
use kssql.Storage.Pager.Tests.{test_disk}
use kssql.Storage.Wal.Frame.{record_update}
use kssql.Storage.Wal.Queue.{open_wal}
use kssql.Storage.Btree.Node.{new_leaf}
use kssql.Storage.Btree.Cached.{BPlusTree}
use kssql.Storage.Btree.Open.{open_tree}
use kssql.Storage.Btree.Tests.{test_store, is_store}
use kssql.Storage.Btree.PageTests.{nodes}
use kssql.Storage.Btree.Tree.Route.{Route, at_leaf}
use kssql.Storage.Btree.Tree.Written.{IsRoomy}
use kssql.Engine.State.{TableSchema, Engine, World}
use kssql.Engine.Insert.{schemas_key}
use kssql.Engine.Start.{new_engine}
use kssql.Engine.Start.Logged.{new_engine-open_tree}
use kssql.Engine.Tables.{new_schema, create_table, table_created}
use kssql.Engine.Tables.Created.{new_engine-create_table}
use kssql.Engine.Tests.{rows, faithful, world}

-- An encoding of a map of one table without columns.
abbrev encode_schema : Bytes → Bytes → List Bytes → Option Bytes → ℕ → Option Bytes
encode_schema key name [] none next_id = some (length key ∷ length name ∷ next_id ∷ (key ++ name))
encode_schema _ _ _ _ _ = none

abbrev encode_schemas : Dict Bytes TableSchema → Option Bytes
encode_schemas ((key, schema) ∷ []) =
    encode_schema key schema.name schema.columns schema.auto_increment_col schema.next_id
encode_schemas _ = none

abbrev decode_schemas : Bytes → Option (Dict Bytes TableSchema)
decode_schemas (n ∷ m ∷ next_id ∷ rest) = some (
    (
      take n rest,
      record {
        name = take m (drop n rest);
        columns = [];
        auto_increment_col = none;
        next_id = next_id;
      },
    )
    ∷ [])
decode_schemas _ = none

abbrev schemas_codec : Codec (Dict Bytes TableSchema)
schemas_codec = record { serialize = encode_schemas; deserialize = decode_schemas }

schema_back :
    (key name : Bytes) (columns : List Bytes) (counted : Option Bytes) (next_id : ℕ) (b : Bytes)
    (n : ℕ)
    → encode_schema key name columns counted next_id ≡ some b
    → (decode_schemas (b ++ zeros n)
        ≡ some (
            (
              key,
              record {
                name = name;
                columns = columns;
                auto_increment_col = counted;
                next_id = next_id;
              },
            )
            ∷ []))
      × (0 < length b)
schema_back key name [] none next_id b n h =
    let same : b ≡ length key ∷ length name ∷ next_id ∷ (key ++ name) = cc in
    rw
      (
        same,
        append_assoc key name (zeros n),
        take-append (length key) key (name ++ zeros n) refl,
        drop-append (length key) key (name ++ zeros n) refl,
        take-append (length name) name (zeros n) refl,
      )
      (refl, omega arith)
schema_back key name [] (some c) next_id b n h = cc
schema_back key name (c ∷ cs) counted next_id b n h = cc

schemas_back :
    (schemas : Dict Bytes TableSchema) (b : Bytes) (n : ℕ)
    → encode_schemas schemas ≡ some b
    → (decode_schemas (b ++ zeros n) ≡ some schemas) × (0 < length b)
schemas_back [] b n h = cc
schemas_back ((key, schema) ∷ []) b n h =
    schema_back key schema.name schema.columns schema.auto_increment_col schema.next_id b n h
schemas_back (first ∷ second ∷ rest) b n h = cc

schemas-IsFaithful : IsFaithful schemas_codec
schemas-IsFaithful = record {
  read_back = λ schemas b n h. (schemas_back schemas b n h).0;
  nonempty = λ schemas b h. (schemas_back schemas b 0 h).1;
}

abbrev table_world : World
table_world = record world {
  store = test_store;
  schema_codec = schemas_codec;
  page_log = λ s. [];
  with_page_log = λ queue s. s;
}

abbrev t : Bytes
t = 116 ∷ []

-- No tables, and one empty leaf.
abbrev no_tables : Engine test_store
no_tables = record {
  btree = record { pages = new_leaf ∷ []; wal = open_wal []; memory_tier = new_tier 1024 };
  current_version = 0;
  active_transactions = [];
  schemas = [];
  indices = [];
  ticks = 0;
  draws = 0;
}

creates : (create_table table_world rows t [] no_tables).0 ≡ ok table_created
unfolding create_table
creates = refl

abbrev versions : Codec ℕ
versions = record { serialize = λ n. some (n ∷ []); deserialize = λ b. none }

-- The pages after the CREATE TABLE, with an empty memory tier.
abbrev reopened : BPlusTree test_store
reopened = record {
  pages = (create_table table_world rows t [] no_tables).1.btree.pages;
  wal = open_wal [];
  memory_tier = new_tier 1024;
}

reopened_starts : (new_engine table_world rows versions reopened).0 ≡ ok tt
unfolding create_table new_engine new_tier get bytes_lt
reopened_starts = refl

empty-Route : Route test_store (IsRoomy test_store) (new_leaf ∷ []) schemas_key 0 new_leaf 0 1
empty-Route = at_leaf refl (omega arith) refl refl

new_engine-create_table_example :
    (new_engine table_world rows versions reopened).1.schemas
    ≡ Dict.insert no_tables.schemas t (new_schema t [])
unfolding new_tier
new_engine-create_table_example =
    new_engine-create_table table_world rows versions (λ s. Unit) is_store faithful
      schemas-IsFaithful t [] no_tables table_created new_leaf new_leaf 0 reopened tt creates tt
      refl refl empty-Route (record { rising = tt; paired = refl }) refl refl reopened_starts

-- The map of a table `u`, as a record in the log, and what was opened with it.
abbrev logged_schemas : Dict Bytes TableSchema
logged_schemas =
    ((117 ∷ []), record { name = 117 ∷ []; columns = []; auto_increment_col = none; next_id = 5 })
    ∷ []

abbrev logged_bytes : Bytes
logged_bytes = 1 ∷ 0 ∷ 9 ∷ 5 ∷ 1 ∷ 1 ∷ 5 ∷ 117 ∷ 117 ∷ []

replays :
    (open_tree test_disk nodes pos []
      (record_update schemas_key logged_bytes ∷ [])
      (new_tier 1024)).0
    ≡ ok tt
unfolding open_tree new_tier
replays = refl

-- The pages have the table `t`, and the tier that of the log.
abbrev shadowed : BPlusTree test_store
shadowed = record {
  pages = (create_table table_world rows t [] no_tables).1.btree.pages;
  wal = open_wal [];
  memory_tier =
      (open_tree test_disk nodes pos [] (record_update schemas_key logged_bytes ∷ [])
        (new_tier 1024)).1.memory_tier;
}

shadowed_starts : (new_engine table_world rows versions shadowed).0 ≡ ok tt
unfolding create_table open_tree new_engine new_tier get make_room bytes_lt
shadowed_starts = refl

new_engine-open_tree_example :
    (new_engine table_world rows versions shadowed).1.schemas ≡ logged_schemas
unfolding new_tier
new_engine-open_tree_example =
    new_engine-open_tree table_world rows versions test_disk nodes pos [] [] [] (new_tier 1024)
      logged_bytes
      (record {
        value = 1 ∷ 1 ∷ 5 ∷ 117 ∷ 117 ∷ [];
        version = 1;
        is_deleted = false;
        timestamp = pos 9;
      })
      logged_schemas shadowed (omega arith, omega arith) tt replays refl refl refl (refl, tt)
      shadowed_starts
