-- ===== src/Engine/Start/Schemas.antt =====
-- src/parser/engine.rs: the schemas that an INSERT logs are those of the next start.
use kssql.Common.{
  ℕ, ◌≡◌, refl, sym, ap, ◌∙◌, subst, Option, none, some, [], ◌∷◌, ◌++◌, append_assoc, append-nil,
  Bytes, bytes_equality, bytes_eq, bytes_eq_iff, false, arith,
}
use kssql.Common.Dict
use kssql.Common.Dict.{Dict, IsUnique}
use kssql.Common.Result.{ok}
use kssql.Common.Exec.{>>=-ok, gets, ◌>>=◌, >>=-keeps}
use kssql.Storage.Codec.{Codec}
use kssql.Storage.Btree.Node.{Record}
use kssql.Storage.Btree.Cached
use kssql.Storage.Btree.Cached.{BPlusTree, get_hit}
use kssql.Engine.State.{TableSchema, Engine, World, btree_get}
use kssql.Engine.Insert.{schemas_key}
use kssql.Engine.Start.{
  version_key, or_decode_failed, insert_all, load_schemas, load_version, fresh, new_engine,
}

insert_absent :
    (m : Dict Bytes TableSchema) (k : Bytes) (v : TableSchema)
    → Dict.get m k ≡ none
    → Dict.insert m k v ≡ m ++ (k, v) ∷ []
insert_absent [] k v h = refl
insert_absent ((j, w) ∷ m) k v h = ground (arith, insert_absent m k v)

-- A key that is nowhere in a map is not one of its keys.
apart :
    (m n : Dict Bytes TableSchema) (k j : Bytes) (v : TableSchema)
    → Dict.get (m ++ (k, v) ∷ n) j ≡ none
    → bytes_eq k j ≡ false
apart [] n k j v h = ground arith
apart ((i, w) ∷ m) n k j v h = ground (arith, apart m n k j v)

unique_absent :
    (m n : Dict Bytes TableSchema) (k : Bytes) (v : TableSchema)
    → IsUnique (m ++ (k, v) ∷ n)
    → Dict.get m k ≡ none
unique_absent [] n k v u = refl
unique_absent ((j, w) ∷ m) n k v u =
    ground
      (arith, bytes_eq_iff j k, bytes_eq_iff k j, apart m n k j v u.0, unique_absent m n k v u.1)

-- The loop puts a map without repeated keys behind what is there.
insert_all_lem : (m n : Dict Bytes TableSchema) → IsUnique (m ++ n) → insert_all m n ≡ m ++ n
insert_all_lem m [] u = sym (append-nil m)
insert_all_lem m ((k, v) ∷ n) u =
    let assoc = append_assoc m ((k, v) ∷ []) n in
    ap (λ l. insert_all l n) (insert_absent m k v (unique_absent m n k v u))
    ∙ insert_all_lem (m ++ (k, v) ∷ []) n (subst (λ l. IsUnique l) (sym assoc) u)
    ∙ assoc

module _ (world : World) (records : Codec Record) (versions : Codec ℕ) where
  open world use {store, depth, schema_codec}

  abbrev SameSchemas : Engine store → Engine store → Type 0
  SameSchemas s t = t.schemas ≡ s.schemas

  SameSchemas-trans : (s t u : Engine store) → SameSchemas s t → SameSchemas t u → SameSchemas s u
  SameSchemas-trans s t u a b = b ∙ a

  load_version-SameSchemas :
      (found : Option Bytes) (s : Engine store)
      → SameSchemas s (load_version world records versions found s).1
  load_version-SameSchemas none s = refl
  load_version-SameSchemas (some bytes) s =
      >>=-keeps SameSchemas SameSchemas-trans
        (gets (λ t. or_decode_failed (records.deserialize bytes)))
        (λ r. gets (λ t. or_decode_failed (versions.deserialize r.value)) >>= λ version.
          (λ t. (ok tt, record t { current_version = version })))
        s refl
        (λ r.
          >>=-keeps SameSchemas SameSchemas-trans
            (gets (λ t. or_decode_failed (versions.deserialize r.value)))
            (λ version. (λ t. (ok tt, record t { current_version = version }))) s refl
            (λ version. refl))

  load_schemas_lem :
      (bytes : Bytes) (r : Record) (schemas : Dict Bytes TableSchema) (s : Engine store)
      → records.deserialize bytes ≡ some r
      → schema_codec.deserialize r.value ≡ some schemas
      → load_schemas world records versions (some bytes) s
        ≡ (ok tt, record s { schemas = insert_all s.schemas schemas })
  load_schemas_lem bytes r schemas s decoded read = rw (decoded, read) refl

  -- What the tree has under the key of the schemas, from the tier or from a page, is what a start takes.
  pub new_engine-found :
      (btree : BPlusTree store) (bytes : Bytes) (r : Record) (schemas : Dict Bytes TableSchema)
      → (Cached.get store depth schemas_key btree).0 ≡ ok (some bytes)
      → records.deserialize bytes ≡ some r
      → schema_codec.deserialize r.value ≡ some schemas
      → IsUnique schemas
      → (new_engine world records versions btree).0 ≡ ok tt
      → (new_engine world records versions btree).1.schemas ≡ schemas
  unfolding new_engine btree_get
  new_engine-found btree bytes r schemas there decoded read u done =
      let rest =
        λ (v : Unit {0}). btree_get world version_key >>= load_version world records versions in
      let s = fresh world records versions btree in
      let (found, hit, on) =
        >>=-ok (btree_get world schemas_key) (λ f. load_schemas world records versions f >>= rest) s
          tt done in
      let same : ok (some bytes) ≡ ok found = sym there ∙ hit in
      let e : some bytes ≡ found = cc in
      let t = (btree_get world schemas_key s).1 in
      let w = record t { schemas = insert_all [] schemas } in
      let loaded : load_schemas world records versions found t ≡ (ok tt, w) =
        ap (λ f. load_schemas world records versions f t) (sym e)
        ∙ load_schemas_lem bytes r schemas t decoded read in
      let whole : (load_schemas world records versions found >>= rest) t ≡ rest tt w =
        rw loaded refl in
      ap (λ x. x.1.schemas) (on ∙ whole)
      ∙ >>=-keeps SameSchemas SameSchemas-trans (btree_get world version_key)
          (load_version world records versions) w refl
          (λ f. load_version-SameSchemas f (btree_get world version_key w).1)
      ∙ insert_all_lem [] schemas u

  -- If the memory tier of the opened tree holds a record with the map of the schemas, none of them named
  -- twice, then an engine that starts on the tree, if it does, has these schemas.
  pub new_engine_lem :
      (btree : BPlusTree store) (bytes : Bytes) (r : Record) (schemas : Dict Bytes TableSchema)
      → Dict.get btree.memory_tier.cache schemas_key ≡ some bytes
      → records.deserialize bytes ≡ some r
      → schema_codec.deserialize r.value ≡ some schemas
      → IsUnique schemas
      → (new_engine world records versions btree).0 ≡ ok tt
      → (new_engine world records versions btree).1.schemas ≡ schemas
  new_engine_lem btree bytes r schemas held decoded read u done =
      new_engine-found btree bytes r schemas (get_hit store depth schemas_key bytes btree held)
        decoded read u done
