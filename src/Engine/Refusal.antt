-- ===== src/Engine/Refusal.antt =====
-- src/parser/engine.rs: the check of COMMIT against what other transactions have committed.
use kssql.Common.{
  ℕ, ◌<◌, ◌≡◌, refl, ◌∙◌, ap, inl, inr, none, some, [], ◌∷◌, Bytes, bytes_equality, nat_equality,
  bytes_eq, bytes_eq_iff, arith, Bool-cases,
}
use kssql.Common.Dict
use kssql.Common.Dict.{Dict, get-remove}
use kssql.Common.Result.{ok, err, Error, Result-cases, transaction_conflict}
use kssql.Common.Exec.{◌>>=◌}
use kssql.Storage.Codec.{Codec}
use kssql.Storage.Btree.Node.{Record}
use kssql.Storage.MemoryTier.Lookup.{get_lem}
use kssql.Engine.State.{Transaction, Engine, World, read_current}
use kssql.Engine.Untouched.{
  IsUntouched, IsUntouched-refl, >>=-IsUntouched, read_current-IsUntouched,
}
use kssql.Engine.Transactions.{check_record, check_updates, commit, commit_transaction}

module _ (world : World) where
  read_current_hit :
      (key bytes : Bytes) (s : Engine world.store)
      → Dict.get s.btree.memory_tier.cache key ≡ some bytes
      → (read_current world key s).0 ≡ ok (some bytes)
  unfolding read_current
  read_current_hit key bytes s h = ground (arith, get_lem key s.btree.memory_tier)

  pub check_updates-IsUntouched :
      (records : Codec Record) (updates : Dict Bytes Bytes) (snapshot : ℕ) (s : Engine world.store)
      → IsUntouched world s (check_updates world records updates snapshot s).1
  unfolding check_updates
  check_updates-IsUntouched records [] snapshot s = IsUntouched-refl world s
  check_updates-IsUntouched records ((key, v) ∷ rest) snapshot s =
      >>=-IsUntouched world (read_current world key)
        (λ bytes t.
          ((λ u. (check_record records snapshot bytes, u)) >>= λ _.
          check_updates world records rest snapshot)
            t)
        s (read_current-IsUntouched world key s)
        (λ bytes t.
          >>=-IsUntouched world (λ u. (check_record records snapshot bytes, u))
            (λ _. check_updates world records rest snapshot) t (IsUntouched-refl world t)
            (λ _ u. check_updates-IsUntouched records rest snapshot u))

  check_record_newer :
      (records : Codec Record) (snapshot : ℕ) (bytes : Bytes) (row : Record)
      → records.deserialize bytes ≡ some row
      → snapshot < row.version
      → check_record records snapshot (some bytes) ≡ err transaction_conflict
  unfolding check_record
  check_record_newer records snapshot bytes row read new = ground arith

  -- A newer record of one of the keys stops the check, whatever the order of the keys.
  check_updates_refused :
      (records : Codec Record) (updates : Dict Bytes Bytes) (snapshot : ℕ) (s : Engine world.store)
      (key value bytes : Bytes) (row : Record)
      → Dict.get updates key ≡ some value
      → Dict.get s.btree.memory_tier.cache key ≡ some bytes
      → records.deserialize bytes ≡ some row
      → snapshot < row.version
      → (e : Error) × ((check_updates world records updates snapshot s).0 ≡ err e)
  unfolding check_updates
  check_updates_refused records [] snapshot s key value bytes row own there read new =
      absurd (cc own)
  check_updates_refused records ((j, v) ∷ rest) snapshot s key value bytes row own there read new =
      elim (Result-cases (read_current world j s).0) [
        | inr (e, failed) ↦ (e, rw failed)
        | inl (found, fine) ↦ elim (Result-cases (check_record records snapshot found)) [
          | inr (e, refused) ↦ (e, rw (fine, refused))
          | inl (u, passed) ↦ elim (Bool-cases (bytes_eq j key)) [
            | inl same ↦
                let e : j ≡ key = ground (arith, bytes_eq_iff j key) in
                absurd (
                  ground (
                    arith,
                    e,
                    fine,
                    passed,
                    read_current_hit key bytes s there,
                    check_record_newer records snapshot bytes row read new,
                  ))
            | inr other ↦
                let own' : Dict.get rest key ≡ some value = ground (arith, own, other) in
                let there' =
                  ap (λ c. Dict.get c key) (read_current-IsUntouched world j s).cache ∙ there in
                let (e, refused) =
                  check_updates_refused records rest snapshot (read_current world j s).1 key value
                    bytes row own' there' read new in
                (e, rw (fine, passed) refused)
          ]
        ]
      ]

  -- If an open transaction has written a key of which the memory tier holds a record newer than the
  -- transaction's snapshot, then COMMIT fails, the transaction is gone, and no row, page, queued entry
  -- or version has changed.
  pub commit_refused :
      (records : Codec Record) (conn_id : ℕ) (tx : Transaction) (s : Engine world.store)
      (key value bytes : Bytes) (row : Record)
      → Dict.get s.active_transactions conn_id ≡ some tx
      → Dict.get tx.updates key ≡ some value
      → Dict.get s.btree.memory_tier.cache key ≡ some bytes
      → records.deserialize bytes ≡ some row
      → tx.snapshot_version < row.version
      → ((e : Error) × ((commit world records conn_id s).0 ≡ err e))
        × IsUntouched world
            (record s { active_transactions = Dict.remove s.active_transactions conn_id })
            (commit world records conn_id s).1
        × (Dict.get (commit world records conn_id s).1.active_transactions conn_id ≡ none)
  unfolding commit commit_transaction
  commit_refused records conn_id tx s key value bytes row open_tx own there read new =
      let s' = record s { active_transactions = Dict.remove s.active_transactions conn_id } in
      let same = check_updates-IsUntouched records tx.updates tx.snapshot_version s' in
      let (e, refused) =
        check_updates_refused records tx.updates tx.snapshot_version s' key value bytes row own
          there read new in
      let gone : Dict.get (Dict.remove s.active_transactions conn_id) conn_id ≡ none =
        ground (arith, get-remove s.active_transactions conn_id conn_id) in
      rw (commit, open_tx, commit_transaction, refused)
        ((e, refl), same, ap (λ l. Dict.get l conn_id) same.transactions ∙ gone)
