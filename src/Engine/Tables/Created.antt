-- ===== src/Engine/Tables/Created.antt =====
-- src/parser/engine.rs: the tables that CREATE TABLE makes and the next start.
use kssql.Common.{
  ℕ, ◌+◌, ◌≡◌, refl, sym, ap, ◌∙◌, false, none, some, Option-cases, List, Bytes, bytes_equality,
  append-nil, inl, inr, arith,
}
use kssql.Common.Dict
use kssql.Common.Dict.{IsUnique}
use kssql.Common.Result.{ok}
use kssql.Common.Exec.{pure, >>=-ok}
use kssql.Storage.Codec.{Codec, IsFaithful}
use kssql.Storage.Btree.Node.{Node, Record}
use kssql.Storage.Btree.Store.{IsStore}
use kssql.Storage.Btree.Cached.{BPlusTree, get_miss}
use kssql.Storage.Btree.Tree.{insert, get_loop}
use kssql.Storage.Btree.Tree.Leaf.{IsLeaf}
use kssql.Storage.Btree.Tree.Route.{Route}
use kssql.Storage.Btree.Tree.Written.{IsRoomy}
use kssql.Storage.Btree.Tree.Insertion.{get_loop-insert}
use kssql.Engine.State.{Engine, World, shared_pages, btree_insert}
use kssql.Engine.Insert.{schemas_key, new_record}
use kssql.Engine.Start.{new_engine}
use kssql.Engine.Start.Schemas.{new_engine-found}
use kssql.Engine.Tables.{Column, new_schema, add_schema, save_schemas, create_table, table_created}

read_whole :
    {A : Type 0} (codec : Codec A) (faithful : IsFaithful codec) (a : A) (b : Bytes)
    → codec.serialize a ≡ some b
    → codec.deserialize b ≡ some a
read_whole codec faithful a b h =
    ap codec.deserialize (sym (append-nil b)) ∙ faithful.read_back a b 0 h

module _ (world : World) (records : Codec Record) where
  open world use {store, depth, schema_codec}

  -- The record that is made for these bytes.
  abbrev stamped : Engine store → Bytes → Record
  stamped s bytes = record {
    value = bytes;
    version = s.current_version;
    is_deleted = false;
    timestamp = world.clock s.ticks;
  }

  abbrev ticked : Engine store → Engine store
  ticked s = record s { ticks = s.ticks + 1 }

  save_schemas_ok :
      (s : Engine store)
      → (save_schemas world records s).0 ≡ ok tt
      → (bytes : Bytes) × (val : Bytes) × (schema_codec.serialize s.schemas ≡ some bytes)
        × (records.serialize (stamped s bytes) ≡ some val)
        × (save_schemas world records s ≡ btree_insert world schemas_key val (ticked s))
  unfolding save_schemas new_record
  save_schemas_ok s done = elim (Option-cases (schema_codec.serialize s.schemas)) [
    | inl bad ↦ absurd (ground (arith, bad, done))
    | inr (bytes, fine) ↦ elim (Option-cases (records.serialize (stamped s bytes))) [
      | inl bad ↦ absurd (ground (arith, fine, bad, done))
      | inr (val, put) ↦ (bytes, val, fine, put, rw (save_schemas, fine, put) refl)
    ]
  ]

  created :
      (name : Bytes) (columns : List Column) (s : Engine store) (text : Bytes)
      → (create_table world records name columns s).0 ≡ ok text
      → ((save_schemas world records (add_schema world records name columns s)).0 ≡ ok tt)
        × ((create_table world records name columns s).1
            ≡ (save_schemas world records (add_schema world records name columns s)).1)
  unfolding create_table
  created name columns s text done =
      let (u, saved, on) =
        >>=-ok (save_schemas world records) (λ _. pure table_created)
          (add_schema world records name columns s) text done in
      (saved, ap (λ r. r.1) on)

  -- What the pages hold after a CREATE TABLE that succeeds, on a tree with room.
  saved_schemas :
      (IsValid : store.State → Type 0) (laws : IsStore store IsValid) (s : Engine store)
      (top node : Node) (page : ℕ)
      → IsValid (shared_pages world s)
      → (save_schemas world records s).0 ≡ ok tt
      → store.load (shared_pages world s) 0 ≡ ok top
      → store.is_full top ≡ false
      → Route store (IsRoomy store) (shared_pages world s) schemas_key page node 0 depth
      → IsLeaf node
      → (bytes : Bytes) × (val : Bytes) × (schema_codec.serialize s.schemas ≡ some bytes)
        × (records.serialize (stamped s bytes) ≡ some val)
        × (get_loop store depth (save_schemas world records s).1.btree.pages schemas_key 0
            ≡ ok (some val))
        × ((save_schemas world records s).1.schemas ≡ s.schemas)
  unfolding btree_insert
  saved_schemas IsValid laws s top node page valid done at room path is_leaf =
      let (bytes, val, fine, put, run) = save_schemas_ok s done in
      let inserted : (insert store depth 0 schemas_key val (shared_pages world s)).0 ≡ ok tt =
        sym (ap (λ r. r.0) run) ∙ done in
      let found =
        (get_loop-insert store IsValid laws (shared_pages world s) 0 top schemas_key val page node
          depth valid at room path is_leaf inserted).0 in
      (
        bytes,
        val,
        fine,
        put,
        ap (λ r. get_loop store depth r.1.btree.pages schemas_key 0) run ∙ found,
        ap (λ r. r.1.schemas) run,
      )

  -- Over a store that keeps its laws, from a valid state, with bincode that reads back what it wrote: if the root is not full
  -- and the path of the key of the schemas meets no full node and ends in a leaf whose keys rise and match
  -- its values, then after a CREATE TABLE that succeeds an engine that starts on the same pages with a
  -- memory tier that does not hold the schemas, if it does, has the old tables and the new one, which counts
  -- from 1.
  pub new_engine-create_table :
      (versions : Codec ℕ) (IsValid : store.State → Type 0) (laws : IsStore store IsValid)
      (faithful_records : IsFaithful records) (faithful_schemas : IsFaithful schema_codec)
      (name : Bytes) (columns : List Column) (s : Engine store) (text : Bytes) (top node : Node)
      (page : ℕ) (btree : BPlusTree store)
      → IsValid (shared_pages world s)
      → (create_table world records name columns s).0 ≡ ok text
      → IsUnique s.schemas
      → store.load (shared_pages world s) 0 ≡ ok top
      → store.is_full top ≡ false
      → Route store (IsRoomy store) (shared_pages world s) schemas_key page node 0 depth
      → IsLeaf node
      → btree.pages ≡ (create_table world records name columns s).1.btree.pages
      → Dict.get btree.memory_tier.cache schemas_key ≡ none
      → (new_engine world records versions btree).0 ≡ ok tt
      → (new_engine world records versions btree).1.schemas
        ≡ Dict.insert s.schemas name (new_schema name columns)
  new_engine-create_table versions IsValid laws faithful_records faithful_schemas name columns s
        text top node page btree valid done unique at room path is_leaf same cold starts =
      let t = add_schema world records name columns s in
      let (saved, on) = created name columns s text done in
      let (bytes, val, fine, put, found, kept) =
        saved_schemas IsValid laws t top node page valid saved at room path is_leaf in
      let there =
        get_miss store depth schemas_key btree cold
        ∙ ap (λ p. get_loop store depth p schemas_key 0) (same ∙ ap (λ e. e.btree.pages) on)
        ∙ found in
      new_engine-found world records versions btree val (stamped t bytes) t.schemas there
        (read_whole records faithful_records (stamped t bytes) val put)
        (read_whole schema_codec faithful_schemas t.schemas bytes fine)
        (Dict.insert-IsUnique s.schemas name (new_schema name columns) unique) starts
