-- ===== src/Engine/Start/Logged.antt =====
-- src/parser/engine.rs: the schemas in the log and the next start.
use kssql.Common.{◌≡◌, ap, ◌∙◌, some, List, ◌∷◌, ◌++◌, Bytes, length, All, bytes_equality, ℕ}
use kssql.Common.Int.{ℤ}
use kssql.Common.Dict
use kssql.Common.Dict.{Dict, IsUnique}
use kssql.Common.Result.{ok}
use kssql.Storage.Codec.{Codec}
use kssql.Storage.Pager.{Disk}
use kssql.Storage.MemoryTier.{MemoryTier}
use kssql.Storage.Wal.Frame.{WalEntry, record_update}
use kssql.Storage.Btree.Node.{Node, Record}
use kssql.Storage.Btree.Cached.{BPlusTree}
use kssql.Storage.Btree.Open.{open_tree}
use kssql.Storage.Btree.Open.Logged.{HasRoom, IsOtherKey, cache-open_tree}
use kssql.Engine.State.{TableSchema, World}
use kssql.Engine.Insert.{schemas_key}
use kssql.Engine.Start.{new_engine}
use kssql.Engine.Start.Schemas.{new_engine_lem}

module _ (world : World) (records : Codec Record) (versions : Codec ℕ) where
  open world use {store, schema_codec}

  -- If the log has a record with the map of the schemas, none named twice, after it no other, and no more
  -- entries than the memory tier has room for, then an engine that starts on what was opened, if both
  -- succeed, has just these schemas, whatever its pages hold: also without the tables that are in the pages
  -- alone.
  pub new_engine-open_tree :
      (disk : Disk) (nodes : Codec Node) (clock : ℕ → ℤ) (file : disk.File)
      (before after : List WalEntry) (memory_tier : MemoryTier) (bytes : Bytes) (r : Record)
      (schemas : Dict Bytes TableSchema) (btree : BPlusTree store)
      → HasRoom (length (before ++ record_update schemas_key bytes ∷ after)) memory_tier
      → All (λ e. IsOtherKey schemas_key e) after
      → (open_tree disk nodes clock file
          (before ++ record_update schemas_key bytes ∷ after)
          memory_tier).0
        ≡ ok tt
      → btree.memory_tier
        ≡ (open_tree disk nodes clock file
            (before ++ record_update schemas_key bytes ∷ after)
            memory_tier).1.memory_tier
      → records.deserialize bytes ≡ some r
      → schema_codec.deserialize r.value ≡ some schemas
      → IsUnique schemas
      → (new_engine world records versions btree).0 ≡ ok tt
      → (new_engine world records versions btree).1.schemas ≡ schemas
  new_engine-open_tree disk nodes clock file before after memory_tier bytes r schemas btree room
        others opened same decoded read unique starts =
      let held =
        cache-open_tree disk nodes clock file schemas_key bytes before after memory_tier room others
          opened in
      new_engine_lem world records versions btree bytes r schemas
        (ap (λ t. Dict.get t.cache schemas_key) same ∙ held) decoded read unique starts
