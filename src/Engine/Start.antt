-- ===== src/Engine/Start.antt =====
-- src/parser/engine.rs: `Engine::new` on an opened tree: the schemas and the version are read from it.
pub mod Schemas
pub mod Logged
use kssql.Common.{ℕ, Option, none, some, List, [], ◌∷◌, Bytes, bytes_equality}
use kssql.Common.Dict
use kssql.Common.Dict.{Dict}
use kssql.Common.Result.{Result, ok, err, decode_failed}
use kssql.Common.Exec.{Exec, pure, gets, ◌>>=◌, ◌>>◌}
use kssql.Storage.Codec.{Codec}
use kssql.Storage.Btree.Node.{Record}
use kssql.Storage.Btree.Cached.{BPlusTree}
use kssql.Engine.State.{TableSchema, Engine, World, btree_get}
use kssql.Engine.Insert.{schemas_key}

-- "__version__"
abbrev pub version_key : Bytes
version_key = 95 ∷ 95 ∷ 118 ∷ 101 ∷ 114 ∷ 115 ∷ 105 ∷ 111 ∷ 110 ∷ 95 ∷ 95 ∷ []

abbrev pub or_decode_failed {ℓ} : {A : Type ℓ} → Option A → Result A
or_decode_failed none = err decode_failed
or_decode_failed (some a) = ok a

-- the loop that fills the map of the schemas
abbrev pub insert_all : Dict Bytes TableSchema → Dict Bytes TableSchema → Dict Bytes TableSchema
insert_all schemas [] = schemas
insert_all schemas ((k, v) ∷ rest) = insert_all (Dict.insert schemas k v) rest

-- `versions` is bincode of a `u64`.
module _ (world : World) (records : Codec Record) (versions : Codec ℕ) where
  open world use {store, schema_codec}

  abbrev pub load_schemas : Option Bytes → Exec (Engine store) (Unit {0})
  load_schemas none = pure tt
  load_schemas (some bytes) = do
    r ← gets (λ s. or_decode_failed (records.deserialize bytes))
    schemas_map ← gets (λ s. or_decode_failed (schema_codec.deserialize r.value))
    (λ s. (ok tt, record s { schemas = insert_all s.schemas schemas_map }))

  abbrev pub load_version : Option Bytes → Exec (Engine store) (Unit {0})
  load_version none = pure tt
  load_version (some bytes) = do
    r ← gets (λ s. or_decode_failed (records.deserialize bytes))
    version ← gets (λ s. or_decode_failed (versions.deserialize r.value))
    (λ s. (ok tt, record s { current_version = version }))

  abbrev pub fresh : BPlusTree store → Engine store
  fresh btree = record {
    btree = btree;
    current_version = 0;
    active_transactions = [];
    schemas = [];
    indices = [];
    ticks = 0;
    draws = 0;
  }

  unfoldable pub new_engine : BPlusTree store → Result (Unit {0}) × Engine store
  unfolding btree_get
  new_engine btree =
      (do
        found ← btree_get world schemas_key
        load_schemas found
        at_version ← btree_get world version_key
        load_version at_version)
        (fresh btree)
