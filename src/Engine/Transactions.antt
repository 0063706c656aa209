-- ===== src/Engine/Transactions.antt =====
-- src/parser/engine.rs: BEGIN, COMMIT and ROLLBACK of `execute`, and how an update or a deletion
-- writes a row, inside a transaction and outside.
use kssql.Common.{
  ℕ, ◌+◌, ◌-◌, Option, none, some, [], ◌∷◌, Bytes, bytes_equality, nat_equality, ltb, if◌then◌else◌,
}
use kssql.Common.Dict
use kssql.Common.Dict.{Dict}
use kssql.Common.Result.{
  Result, ok, err, decode_failed, encode_failed, transaction_conflict, no_transaction,
}
use kssql.Common.Exec.{Exec, pure, ◌>>=◌, ◌>>◌}
use kssql.Storage.Codec.{Codec}
use kssql.Storage.Btree.Node.{Record}
use kssql.Storage.Wal.Frame.{record_update}
use kssql.Engine.State.{
  Transaction, Engine, World, as_u64, next_version, read_current, tier_insert, wal_enqueue,
  wal_flush, bump_version,
}

abbrev pub or_encode_failed {ℓ} : {A : Type ℓ} → Option A → Result A
or_encode_failed none = err encode_failed
or_encode_failed (some a) = ok a

module _ (records : Codec Record) where
  -- A row's record with another version: what COMMIT and a write outside a transaction store.
  unfoldable pub restamp : ℕ → Bytes → Result Bytes
  restamp version bytes = elim (records.deserialize bytes) [
    | none ↦ err decode_failed
    | some row ↦ or_encode_failed (records.serialize (record row { version = version }))
  ]

  -- The check of one key of a transaction against the record that is there now.
  unfoldable pub check_record : ℕ → Option Bytes → Result (Unit {0})
  check_record snapshot none = ok tt
  check_record snapshot (some bytes) = elim (records.deserialize bytes) [
    | none ↦ err decode_failed
    | some row ↦ if ltb snapshot row.version then err transaction_conflict else ok tt
  ]

module _ (world : World) (records : Codec Record) where
  open world use {store, clock}

  unfoldable pub begin : ℕ → Exec (Engine store) (Unit {0})
  begin conn_id engine =
      let tx : Transaction = record {
        id = as_u64 (clock engine.ticks);
        snapshot_version = engine.current_version;
        updates = [];
      } in
      (
        ok tt,
        record engine {
          active_transactions = Dict.insert engine.active_transactions conn_id tx;
          ticks = engine.ticks + 1;
        },
      )

  unfoldable pub rollback : ℕ → Exec (Engine store) (Unit {0})
  rollback conn_id engine = (
    ok tt,
    record engine { active_transactions = Dict.remove engine.active_transactions conn_id },
  )

  -- the first loop of COMMIT
  unfoldable pub check_updates : Dict Bytes Bytes → ℕ → Exec (Engine store) (Unit {0})
  unfolding check_record read_current
  check_updates [] snapshot = pure tt
  check_updates ((key, v) ∷ rest) snapshot = do
    bytes ← read_current world key
    (λ s. (check_record records snapshot bytes, s))
    check_updates rest snapshot

  -- the second loop of COMMIT
  unfoldable pub write_updates : Dict Bytes Bytes → ℕ → Exec (Engine store) (Unit {0})
  unfolding restamp tier_insert wal_enqueue
  write_updates [] version = pure tt
  write_updates ((key, v) ∷ rest) version = do
    bytes ← (λ s. (restamp records version v, s))
    (λ s. (ok tt, tier_insert world key bytes s))
    wal_enqueue world (record_update key bytes)
    write_updates rest version

  unfoldable pub commit_transaction : Transaction → Exec (Engine store) (Unit {0})
  unfolding check_updates write_updates bump_version wal_flush
  commit_transaction tx = do
    check_updates tx.updates tx.snapshot_version
    version ← bump_version world
    write_updates tx.updates version
    wal_flush world

  -- The transaction is removed before anything is checked.
  unfoldable pub commit : ℕ → Exec (Engine store) (Unit {0})
  unfolding commit_transaction
  commit conn_id engine = elim (Dict.get engine.active_transactions conn_id) [
    | none ↦ (err no_transaction, engine)
    | some tx ↦
        commit_transaction tx
          (record engine { active_transactions = Dict.remove engine.active_transactions conn_id })
  ]

  -- A row of UPDATE or DELETE: into the open transaction, or with a version of its own to the tier
  -- and the log.
  unfoldable pub write_row : ℕ → Bytes → Bytes → Exec (Engine store) (Unit {0})
  unfolding restamp tier_insert wal_enqueue bump_version
  write_row conn_id key val engine = elim (Dict.get engine.active_transactions conn_id) [
    | some tx ↦
        let tx' = record tx { updates = Dict.insert tx.updates key val } in
        (
          ok tt,
          record engine {
            active_transactions = Dict.insert engine.active_transactions conn_id tx';
          },
        )
    | none ↦
        (do
          version ← bump_version world
          bytes ← (λ s. (restamp records version val, s))
          (λ s. (ok tt, tier_insert world key bytes s))
          wal_enqueue world (record_update key bytes))
          engine
  ]

  unfoldable pub undo : Exec (Engine store) (Unit {0})
  undo engine =
      if ltb 0 engine.current_version
      then (ok tt, record engine { current_version = engine.current_version - 1 })
      else (ok tt, engine)

  unfoldable pub redo : Exec (Engine store) (Unit {0})
  redo engine = (ok tt, record engine { current_version = next_version engine.current_version })
