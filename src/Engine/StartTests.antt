-- ===== src/Engine/StartTests.antt =====
-- src/parser/engine.rs: a start on a tree that holds the schema of one table.
use kssql.Common.{ℕ, ◌≡◌, refl, none, some, [], ◌∷◌, Bytes}
use kssql.Common.Dict
use kssql.Common.Result.{ok}
use kssql.Storage.Codec.{Codec}
use kssql.Storage.Btree.Cached.{BPlusTree}
use kssql.Storage.MemoryTier.{new_tier, get}
use kssql.Storage.Wal.Queue.{open_wal}
use kssql.Engine.State.{TableSchema, World}
use kssql.Engine.Insert.{schemas_key}
use kssql.Engine.Start.{new_engine}
use kssql.Engine.Tests.{rows, row, world, empty_store}

abbrev users : Dict.Dict Bytes TableSchema
users =
    (
      (117 ∷ []),
      record { name = 117 ∷ []; columns = (97 ∷ []) ∷ []; auto_increment_col = none; next_id = 1 },
    )
    ∷ []

-- Every map of schemas is read as that of `users`.
abbrev pub users_world : World
users_world = record world {
  schema_codec = record { serialize = λ schemas. none; deserialize = λ b. some users };
}

abbrev pub versions : Codec ℕ
versions = record { serialize = λ n. some (n ∷ []); deserialize = λ b. none }

abbrev pub opened : BPlusTree empty_store
opened = record {
  pages = tt;
  wal = open_wal [];
  memory_tier = record (new_tier 1024) { cache = (schemas_key, row 1 7) ∷ [] };
}

starts : (new_engine users_world rows versions opened).0 ≡ ok tt
unfolding new_engine new_tier get
starts = refl
