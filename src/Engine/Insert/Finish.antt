-- ===== src/Engine/Insert/Finish.antt =====
-- src/parser/engine.rs: the end of `handle_insert`, which only logs, and keeps the next id.
use kssql.Common.{
  ℕ, ◌≡◌, refl, sym, ap, ◌∙◌, List, [], ◌∷◌, ◌++◌, Bytes, bytes_equality, ◌==◌, arith, inl, inr,
  Bool-cases, if◌then◌else◌,
}
use kssql.Common.Dict
use kssql.Common.Dict.{Dict}
use kssql.Common.Result.{ok}
use kssql.Common.Exec.{pure, gets, ◌>>=◌, >>=-ok, >>=-keeps}
use kssql.Common.Text.{to_decimal}
use kssql.Storage.Codec.{Codec}
use kssql.Storage.Btree.Node.{Record}
use kssql.Storage.Wal.Frame.{WalEntry, record_update}
use kssql.Engine.State.{TableSchema, Engine, World, wal_enqueue, wal_flush}
use kssql.Engine.Statements.{rows_text}
use kssql.Engine.Transactions.{or_encode_failed}
use kssql.Engine.Insert.{
  new_record, enqueue_all, keep_next_id, finish_insert, inserted_text, schemas_key,
}

-- The schemas where a table's next id has become this one.
abbrev pub kept_schemas : Bytes → TableSchema → ℕ → Dict Bytes TableSchema → Dict Bytes TableSchema
kept_schemas table_name schema next_id schemas =
    if next_id == schema.next_id
    then schemas
    else Dict.insert schemas table_name (record schema { next_id = next_id })

ok_injective : {A : Type 0} {a b : A} → ok a ≡ ok b → a ≡ b
ok_injective e = cc

module _ (world : World) where
  open world use {store}

  -- What the memory tier holds and the schemas are the same.
  abbrev pub SameTables : Engine store → Engine store → Type 0
  SameTables s t = (t.btree.memory_tier.cache ≡ s.btree.memory_tier.cache) × (t.schemas ≡ s.schemas)

  SameTables-trans : (s t u : Engine store) → SameTables s t → SameTables t u → SameTables s u
  SameTables-trans s t u a b = (b.0 ∙ a.0, b.1 ∙ a.1)

  wal_enqueue-SameTables :
      (entry : WalEntry) (s : Engine store) → SameTables s (wal_enqueue world entry s).1
  unfolding wal_enqueue
  wal_enqueue-SameTables entry s = ground arith

  -- the state that the end of an INSERT begins with, with the next id kept
  abbrev pub with_next_id : Bytes → TableSchema → ℕ → Engine store → Engine store
  with_next_id table_name schema next_id s = record s {
    schemas = kept_schemas table_name schema next_id s.schemas;
  }

  module _ (records : Codec Record) where
    enqueue_all-SameTables :
        (entries : List WalEntry) (s : Engine store)
        → SameTables s (enqueue_all world records entries s).1
    unfolding enqueue_all
    enqueue_all-SameTables [] s = (refl, refl)
    enqueue_all-SameTables (entry ∷ entries) s =
        >>=-keeps SameTables SameTables-trans (wal_enqueue world entry)
          (λ _. enqueue_all world records entries) s (wal_enqueue-SameTables entry s)
          (λ _. enqueue_all-SameTables entries (wal_enqueue world entry s).1)

    keep_next_id-SameTables :
        (table_name : Bytes) (schema : TableSchema) (next_id : ℕ) (s : Engine store)
        → SameTables
            (with_next_id table_name schema next_id s)
            (keep_next_id world records table_name schema next_id s).1
    unfolding keep_next_id new_record
    keep_next_id-SameTables table_name schema next_id s =
        elim (Bool-cases (next_id == schema.next_id)) [
          | inl same ↦ rw (keep_next_id, same) (refl, refl)
          | inr changed ↦
              let s' = record s {
                schemas = Dict.insert s.schemas table_name (record schema { next_id = next_id });
              } in
              rw (keep_next_id, changed)
                (>>=-keeps SameTables SameTables-trans
                  (gets (λ t. or_encode_failed (world.schema_codec.serialize t.schemas)))
                  (λ bytes. new_record world records bytes >>= λ val.
                    wal_enqueue world (record_update schemas_key val))
                  s' (refl, refl)
                  (λ bytes.
                    >>=-keeps SameTables SameTables-trans (new_record world records bytes)
                      (λ val. wal_enqueue world (record_update schemas_key val)) s' (refl, refl)
                      (λ val. wal_enqueue-SameTables _ _)))
        ]

    -- The end of an INSERT that succeeds reports the count, keeps the next id, and leaves the rest of the
    -- schemas and the memory tier as they were.
    pub finish_insert_lem :
        (table_name : Bytes) (schema : TableSchema) (out : ℕ × List WalEntry × ℕ) (s : Engine store)
        (text : Bytes)
        → (finish_insert world records table_name schema out s).0 ≡ ok text
        → (text ≡ inserted_text ++ (to_decimal out.2 ++ rows_text))
          × SameTables
              (with_next_id table_name schema out.0 s)
              (finish_insert world records table_name schema out s).1
    unfolding wal_flush
    finish_insert_lem table_name schema (next_id, entries, count) s text done =
        let said = pure (inserted_text ++ (to_decimal count ++ rows_text)) in
        let flush = λ (u : Unit {0}). wal_flush world >>= λ _. said in
        let keep =
          λ (u : Unit {0}). keep_next_id world records table_name schema next_id >>= flush in
        let (u, queued, on) = >>=-ok (enqueue_all world records entries) keep s text done in
        let t = (enqueue_all world records entries s).1 in
        let (v, kept, on') =
          >>=-ok (keep_next_id world records table_name schema next_id) flush t text
            (sym (ap (λ r. r.0) on) ∙ done) in
        let whole = on ∙ on' in
        let logged = enqueue_all-SameTables entries s in
        let keeps = keep_next_id-SameTables table_name schema next_id t in
        (
          ok_injective (sym (sym (ap (λ r. r.0) whole) ∙ done)),
          (
            ap (λ r. r.1.btree.memory_tier.cache) whole ∙ keeps.0 ∙ logged.0,
            ap (λ r. r.1.schemas) whole
                ∙ keeps.1
                ∙ ap (kept_schemas table_name schema next_id) logged.1,
          ),
        )
