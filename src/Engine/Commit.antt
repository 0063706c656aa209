-- ===== src/Engine/Commit.antt =====
-- src/parser/engine.rs: what a COMMIT that finds no conflict writes.
use kssql.Common.{
  ℕ, ◌+◌, ◌<◌, ◌≤◌, ◌≡◌, refl, sym, ◌∙◌, ap, ◌⊎◌, inl, inr, none, some, List, [], ◌∷◌, ◌++◌,
  append_assoc, append-nil, length, length-append, Bytes, bytes_equality, nat_equality, bytes_eq,
  bytes_eq_iff, subst, arith, Bool-cases,
}
use kssql.Common.Dict
use kssql.Common.Dict.{Dict, IsUnique, get-insert}
use kssql.Common.Result.{ok}
use kssql.Storage.Codec.{Codec}
use kssql.Storage.Btree.Node.{Record}
use kssql.Storage.MemoryTier
use kssql.Storage.MemoryTier.Lookup.{get-insert_lem, get_lem}
use kssql.Storage.Wal.Frame.{WalEntry, record_update}
use kssql.Storage.Wal.Queue.{Wal, queue_capacity, flush_pipeline}
use kssql.Storage.Wal.Enqueue.{enqueue, enqueue_room}
use kssql.Engine.State.{
  Transaction, Engine, World, tier_insert, with_queue, wal_enqueue, wal_flush, bump_version,
  next_version,
}
use kssql.Engine.Refusal.{check_updates-IsUntouched}
use kssql.Engine.Transactions.{restamp, check_updates, write_updates, commit, commit_transaction}

module _ (records : Codec Record) (version : ℕ) where
  -- The rows of a transaction with the version of its commit, key by key.
  abbrev pub IsStamped : Dict Bytes Bytes → Dict Bytes Bytes → Type 0
  IsStamped [] [] = Unit
  IsStamped [] (y ∷ ys) = [] ≡ y ∷ ys
  IsStamped (x ∷ xs) [] = [] ≡ x ∷ xs
  IsStamped ((j, v) ∷ xs) ((k, d) ∷ ys) =
      (k ≡ j)
      × ((row : Record) × (records.deserialize v ≡ some row)
          × (records.serialize (record row { version = version }) ≡ some d))
      × IsStamped xs ys

abbrev pub entries_of : Dict Bytes Bytes → List WalEntry
entries_of [] = []
entries_of ((key, bytes) ∷ rest) = record_update key bytes ∷ entries_of rest

module _ (world : World) where
  abbrev queue_of : Engine world.store → List WalEntry
  queue_of s = s.btree.wal.queue

  -- The state after these rows have been written one by one.
  abbrev put_all : Dict Bytes Bytes → Engine world.store → Engine world.store
  put_all [] s = s
  put_all ((key, bytes) ∷ rest) s = put_all rest (
      with_queue world (tier_insert world key bytes s) (queue_of s ++ record_update key bytes ∷ []))

  tier_insert_keeps :
      (key bytes : Bytes) (s : Engine world.store)
      → ((tier_insert world key bytes s).btree.wal ≡ s.btree.wal)
        × ((tier_insert world key bytes s).current_version ≡ s.current_version)
        × ((tier_insert world key bytes s).active_transactions ≡ s.active_transactions)
  unfolding tier_insert
  tier_insert_keeps key bytes s = (refl, refl, refl)

  wal_enqueue_room :
      (entry : WalEntry) (s : Engine world.store)
      → length (queue_of s) < queue_capacity
      → wal_enqueue world entry s ≡ (ok tt, with_queue world s (queue_of s ++ entry ∷ []))
  unfolding wal_enqueue enqueue
  wal_enqueue_room entry s h = rw (enqueue_room world.others entry 1001 0 (queue_of s) h) refl

  restamp_lem :
      (records : Codec Record) (version : ℕ) (v d : Bytes) (row : Record)
      → records.deserialize v ≡ some row
      → records.serialize (record row { version = version }) ≡ some d
      → restamp records version v ≡ ok d
  unfolding restamp
  restamp_lem records version v d row read made = rw (restamp, read, made) refl

  write_updates_lem :
      (records : Codec Record) (version : ℕ) (updates new : Dict Bytes Bytes)
      (s : Engine world.store)
      → IsStamped records version updates new
      → length (queue_of s) + length updates ≤ queue_capacity
      → write_updates world records updates version s ≡ (ok tt, put_all new s)
  unfolding write_updates
  write_updates_lem records version [] [] s h room = refl
  write_updates_lem records version [] (y ∷ ys) s h room = absurd (cc h)
  write_updates_lem records version (x ∷ xs) [] s h room = absurd (cc h)
  write_updates_lem records version ((j, v) ∷ xs) ((k, d) ∷ ys) s (same, (row, read, made), rest)
        room =
      let s1 = tier_insert world k d s in
      let s2 = with_queue world s1 (queue_of s ++ record_update k d ∷ []) in
      let more =
        write_updates_lem records version xs ys s2 rest
          (omega (arith, room, length-append (queue_of s) (record_update k d ∷ []))) in
      rw
        (
          restamp_lem records version v d row read made,
          sym same,
          wal_enqueue_room (record_update k d) s1 (omega (arith, room)),
        )
        more

  -- Writing the rows leaves the versions and the transactions, and adds the rows to the queue in order.
  put_all_lem :
      (new : Dict Bytes Bytes) (s : Engine world.store)
      → ((put_all new s).btree.wal ≡ record s.btree.wal { queue = queue_of s ++ entries_of new })
        × ((put_all new s).current_version ≡ s.current_version)
        × ((put_all new s).active_transactions ≡ s.active_transactions)
  unfolding tier_insert
  put_all_lem [] s = (rw append-nil refl, refl, refl)
  put_all_lem ((k, d) ∷ rest) s =
      let s2 = with_queue world (tier_insert world k d s) (queue_of s ++ record_update k d ∷ []) in
      let ih = put_all_lem rest s2 in
      let kept = tier_insert_keeps k d s in (ih.0 ∙ simp append_assoc, ih.1 ∙ kept.1, ih.2 ∙ kept.2)

  -- A row of which the tier holds what `bytes` says, or nothing, stays so while others are written.
  put_all_other :
      (new : Dict Bytes Bytes) (s : Engine world.store) (key bytes : Bytes)
      → Dict.get new key ≡ none
      → (Dict.get s.btree.memory_tier.cache key ≡ some bytes)
        ⊎ (Dict.get s.btree.memory_tier.cache key ≡ none)
      → (Dict.get (put_all new s).btree.memory_tier.cache key ≡ some bytes)
        ⊎ (Dict.get (put_all new s).btree.memory_tier.cache key ≡ none)
  unfolding tier_insert
  put_all_other [] s key bytes absent was = was
  put_all_other ((k, d) ∷ rest) s key bytes absent was =
      let tier = s.btree.memory_tier in
      let tier' = MemoryTier.insert (world.clock s.ticks) k d tier in
      let kept = get-insert_lem (world.clock s.ticks) k d key tier in
      put_all_other rest
        (with_queue world (tier_insert world k d s) (queue_of s ++ record_update k d ∷ [])) key
        bytes (ground (arith, absent))
        (ground (
          arith,
          absent,
          was,
          kept,
          (get_lem key tier).0,
          (get_lem key tier').0,
          bytes_eq_iff k key,
        ))

  put_all_own :
      (new : Dict Bytes Bytes) (s : Engine world.store) (key bytes : Bytes)
      → IsUnique new
      → Dict.get new key ≡ some bytes
      → (Dict.get (put_all new s).btree.memory_tier.cache key ≡ some bytes)
        ⊎ (Dict.get (put_all new s).btree.memory_tier.cache key ≡ none)
  unfolding tier_insert
  put_all_own [] s key bytes unique own = absurd (cc own)
  put_all_own ((k, d) ∷ rest) s key bytes unique own =
      let s2 = with_queue world (tier_insert world k d s) (queue_of s ++ record_update k d ∷ []) in
      elim (Bool-cases (bytes_eq k key)) [
        | inl same ↦
            let e : k ≡ key = ground (arith, bytes_eq_iff k key) in
            let f : d ≡ bytes = ground (arith, own, same) in
            let tier' = MemoryTier.insert (world.clock s.ticks) k d s.btree.memory_tier in
            put_all_other rest s2 key bytes (subst (λ j. Dict.get rest j ≡ none) e unique.0) (
              inl (
                subst (λ j. Dict.get tier'.cache j ≡ some bytes) e
                  (sym (get_lem k tier').0
                    ∙ (get-insert_lem (world.clock s.ticks) k d key s.btree.memory_tier).0
                    ∙ ap some f)))
        | inr other ↦ put_all_own rest s2 key bytes unique.1 (ground (arith, own, other))
      ]

  -- a log with these rows behind its queue
  abbrev pub with_more : Dict Bytes Bytes → Wal → Wal
  with_more new wal = record wal { queue = wal.queue ++ entries_of new }

  -- the state when the transaction has been taken out
  abbrev pub closed : ℕ → Engine world.store → Engine world.store
  closed conn_id s = record s { active_transactions = Dict.remove s.active_transactions conn_id }

  commit_run :
      (records : Codec Record) (conn_id : ℕ) (tx : Transaction) (s : Engine world.store)
      (new : Dict Bytes Bytes)
      → Dict.get s.active_transactions conn_id ≡ some tx
      → (check_updates world records tx.updates tx.snapshot_version (closed conn_id s)).0 ≡ ok tt
      → IsStamped records (next_version s.current_version) tx.updates new
      → length s.btree.wal.queue + length tx.updates ≤ queue_capacity
      → commit world records conn_id s
        ≡ wal_flush world (
            put_all new (
              let t =
                (check_updates world records tx.updates tx.snapshot_version (closed conn_id s)).1 in
              record t { current_version = next_version t.current_version }))
  unfolding bump_version commit wal_flush
  commit_run records conn_id tx s new open_tx passed stamped room =
      let t = (check_updates world records tx.updates tx.snapshot_version (closed conn_id s)).1 in
      let same =
        check_updates-IsUntouched world records tx.updates tx.snapshot_version (closed conn_id s) in
      let bumped = record t { current_version = next_version t.current_version } in
      let wrote =
        write_updates_lem records (next_version t.current_version) tx.updates new bumped
          (subst (λ v. IsStamped records (next_version v) tx.updates new) (sym same.version)
            stamped)
          (subst (λ w. length w.queue + length tx.updates ≤ queue_capacity) (sym same.wal) room) in
      rw (commit, open_tx, commit_transaction, passed, wrote) refl

  -- If an open transaction passes the check, each of its rows can be given the version of the commit,
  -- and the queue has room for them, then COMMIT succeeds: the version is the next one, the rows are
  -- queued in their order behind what was queued and flushed, the transaction is closed, and the memory
  -- tier holds each row with the new version or has evicted it.
  pub commit_lem :
      (records : Codec Record) (conn_id : ℕ) (tx : Transaction) (s : Engine world.store)
      (new : Dict Bytes Bytes)
      → Dict.get s.active_transactions conn_id ≡ some tx
      → (check_updates world records tx.updates tx.snapshot_version (closed conn_id s)).0 ≡ ok tt
      → IsStamped records (next_version s.current_version) tx.updates new
      → IsUnique new
      → length s.btree.wal.queue + length tx.updates ≤ queue_capacity
      → ((commit world records conn_id s).0 ≡ ok tt)
        × ((commit world records conn_id s).1.current_version ≡ next_version s.current_version)
        × ((commit world records conn_id s).1.btree.wal
            ≡ flush_pipeline world.entries (with_more new s.btree.wal))
        × ((commit world records conn_id s).1.active_transactions
            ≡ Dict.remove s.active_transactions conn_id)
        × ((key bytes : Bytes)
            → Dict.get new key ≡ some bytes
            → (Dict.get (commit world records conn_id s).1.btree.memory_tier.cache key ≡ some bytes)
              ⊎ (Dict.get (commit world records conn_id s).1.btree.memory_tier.cache key ≡ none))
  unfolding wal_flush
  commit_lem records conn_id tx s new open_tx passed stamped unique room =
      let s0 = closed conn_id s in
      let t = (check_updates world records tx.updates tx.snapshot_version s0).1 in
      let same = check_updates-IsUntouched world records tx.updates tx.snapshot_version s0 in
      let run = commit_run records conn_id tx s new open_tx passed stamped room in
      let bumped = record t { current_version = next_version t.current_version } in
      let put = put_all_lem new bumped in
      (
        ap (λ r. r.0) run,
        ap (λ r. r.1.current_version) run ∙ put.1 ∙ ap next_version same.version,
        ap (λ r. r.1.btree.wal) run
            ∙ ap (λ w. flush_pipeline world.entries w) (put.0 ∙ ap (with_more new) same.wal),
        ap (λ r. r.1.active_transactions) run ∙ put.2 ∙ same.transactions,
        λ key bytes own.
            subst
              (λ r.
                (Dict.get r.1.btree.memory_tier.cache key ≡ some bytes)
                ⊎ (Dict.get r.1.btree.memory_tier.cache key ≡ none))
              (sym run) (put_all_own new bumped key bytes unique own),
      )
