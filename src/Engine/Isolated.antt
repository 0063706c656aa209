-- ===== src/Engine/Isolated.antt =====
-- src/parser/engine.rs: what a connection's reads and writes leave of the other connections' transactions.
pub mod Rows
pub mod Statements
pub mod Queries
use kssql.Common.{
  ℕ, ◌≡◌, ◌≢◌, refl, ap, ◌∙◌, Option, none, some, List, [], ◌∷◌, Bytes, bytes_equality,
  nat_equality, inl, inr, Option-cases, arith,
}
use kssql.Common.Dict
use kssql.Common.Dict.{Dict, get-insert, get-remove}
use kssql.Common.Result.{Result, ok}
use kssql.Common.Exec.{Exec, pure, gets, raise, ◌>>=◌, >>=-keeps}
use kssql.Storage.Codec.{Codec}
use kssql.Storage.Btree.Node.{Record}
use kssql.Storage.Wal.Frame.{WalEntry, record_update}
use kssql.Engine.State.{
  Transaction, Engine, World, tier_insert, wal_enqueue, wal_flush, bump_version, as_u64,
  next_version,
}
use kssql.Engine.Untouched.{IsUntouched}
use kssql.Engine.Refusal.{check_updates-IsUntouched}
use kssql.Engine.Transactions.{
  restamp, begin, rollback, check_updates, write_updates, commit_transaction, commit, write_row,
}

-- The transactions of all other connections are the same in both states.
pub record KeepsOthers (world : World) (conn_id : ℕ) (s t : Engine world.store) : Type 0 where
  pub kept :
      (other : ℕ)
      → other ≢ conn_id
      → Dict.get t.active_transactions other ≡ Dict.get s.active_transactions other

module _ (world : World) (conn_id : ℕ) where
  open world use {store}

  -- The relation at this engine and connection.
  abbrev Keeps : Engine store → Engine store → Type 0
  Keeps s t = KeepsOthers world conn_id s t

  -- From whatever state it runs, it keeps the transactions of the other connections.
  abbrev pub Isolated : {A : Type 0} → Exec (Engine store) A → Type 0
  Isolated m = (s : Engine store) → KeepsOthers world conn_id s (m s).1

  pub same_KeepsOthers :
      (s t : Engine store) → t.active_transactions ≡ s.active_transactions → Keeps s t
  same_KeepsOthers s t e = record { kept = λ other ne. ap (λ l. Dict.get l other) e }

  pub KeepsOthers-trans : (s t u : Engine store) → Keeps s t → Keeps t u → Keeps s u
  KeepsOthers-trans s t u a b = record { kept = λ other ne. b.kept other ne ∙ a.kept other ne }

  pub KeepsOthers->>= :
      {A B : Type 0} (m : Exec (Engine store) A) (f : A → Exec (Engine store) B) (s : Engine store)
      → Keeps s (m s).1
      → ((a : A) (t : Engine store) → Keeps t (f a t).1)
      → Keeps s ((m >>= f) s).1
  KeepsOthers->>= m f s first after =
      >>=-keeps Keeps KeepsOthers-trans m f s first (λ a. after a (m s).1)

  pub KeepsOthers-refl : (s : Engine store) → Keeps s s
  KeepsOthers-refl s = same_KeepsOthers s _ refl

  pub untouched_KeepsOthers : (s t : Engine store) → IsUntouched world s t → Keeps s t
  untouched_KeepsOthers s t u = same_KeepsOthers s t u.transactions

  pub put_own :
      (tx : Transaction) (s : Engine store)
      → Keeps s (record s { active_transactions = Dict.insert s.active_transactions conn_id tx })
  put_own tx s = record {
    kept = λ other ne. ground (arith, get-insert s.active_transactions conn_id other tx);
  }

  pub drop_own :
      (s : Engine store)
      → Keeps s (record s { active_transactions = Dict.remove s.active_transactions conn_id })
  drop_own s = record {
    kept = λ other ne. ground (arith, get-remove s.active_transactions conn_id other);
  }

  pub wal_enqueue-Isolated : (entry : WalEntry) → Isolated (wal_enqueue world entry)
  unfolding wal_enqueue
  wal_enqueue-Isolated entry s = same_KeepsOthers s _ (ground arith)

  pub wal_flush-Isolated : Isolated (wal_flush world)
  unfolding wal_flush
  wal_flush-Isolated s = same_KeepsOthers s _ refl

  pub tier_insert-KeepsOthers :
      (key value : Bytes) (s : Engine store) → Keeps s (tier_insert world key value s)
  unfolding tier_insert
  tier_insert-KeepsOthers key value s = same_KeepsOthers s _ refl

  -- A record goes to the tier and to the log.
  -- A record goes to the tier and to the log.
  pub store_entry :
      (key value : Bytes) (s : Engine store)
      → Keeps s
          (((λ t. (ok tt, tier_insert world key value t)) >>= λ (_ : Unit {0}).
              wal_enqueue world (record_update key value))
            s).1
  store_entry key value s =
      KeepsOthers-trans s (tier_insert world key value s) _ (tier_insert-KeepsOthers key value s)
        (wal_enqueue-Isolated (record_update key value) (tier_insert world key value s))

  module _ (records : Codec Record) where
    pub begin-Isolated : Isolated (begin world records conn_id)
    unfolding begin
    begin-Isolated s =
        let tx : Transaction = record {
          id = as_u64 (world.clock s.ticks);
          snapshot_version = s.current_version;
          updates = [];
        } in
        let t = record s { active_transactions = Dict.insert s.active_transactions conn_id tx } in
        KeepsOthers-trans s t _ (put_own tx s) (same_KeepsOthers t _ refl)

    pub rollback-Isolated : Isolated (rollback world records conn_id)
    unfolding rollback
    rollback-Isolated s = drop_own s

    write_updates-Isolated :
        (updates : Dict Bytes Bytes) (version : ℕ)
        → Isolated (write_updates world records updates version)
    unfolding write_updates
    write_updates-Isolated [] version s = KeepsOthers-refl s
    write_updates-Isolated ((key, v) ∷ rest) version s =
        KeepsOthers->>= (gets (λ t. restamp records version v)) _ s (KeepsOthers-refl s) (λ bytes t.
          KeepsOthers-trans t (tier_insert world key bytes t) _
            (tier_insert-KeepsOthers key bytes t)
            (KeepsOthers->>= (wal_enqueue world (record_update key bytes))
              (λ _. write_updates world records rest version) (tier_insert world key bytes t)
              (wal_enqueue-Isolated (record_update key bytes) (tier_insert world key bytes t))
              (λ _ v. write_updates-Isolated rest version v)))

    commit_transaction-Isolated :
        (tx : Transaction) → Isolated (commit_transaction world records tx)
    unfolding commit_transaction
    commit_transaction-Isolated tx s =
        let finish = λ (version : ℕ).
          write_updates world records tx.updates version >>= λ _. wal_flush world in
        KeepsOthers->>= (check_updates world records tx.updates tx.snapshot_version)
          (λ _. bump_version world >>= finish) s
          (untouched_KeepsOthers s _
            (check_updates-IsUntouched world records tx.updates tx.snapshot_version s))
          (λ _ t.
            let version = next_version t.current_version in
            let u = record t { current_version = version } in
            KeepsOthers-trans t u _ (same_KeepsOthers t u refl) (
              KeepsOthers->>= (write_updates world records tx.updates version)
                (λ _. wal_flush world) u (write_updates-Isolated tx.updates version u)
                (λ _ v. wal_flush-Isolated v)))

    pub commit-Isolated : Isolated (commit world records conn_id)
    unfolding commit
    commit-Isolated s = elim (Option-cases (Dict.get s.active_transactions conn_id)) [
      | inl closed ↦ rw (commit, closed) (KeepsOthers-refl s)
      | inr (tx, open_tx) ↦
          rw (commit, open_tx)
            (KeepsOthers-trans s _ _ (drop_own s) (commit_transaction-Isolated tx _))
    ]

    pub write_row-Isolated : (key val : Bytes) → Isolated (write_row world records conn_id key val)
    unfolding write_row
    write_row-Isolated key val s = elim (Option-cases (Dict.get s.active_transactions conn_id)) [
      | inr (tx, open_tx) ↦ rw (write_row, open_tx) (put_own _ s)
      | inl closed ↦
          rw (write_row, closed)
            (let version = next_version s.current_version in
              let t = record s { current_version = version } in
              KeepsOthers-trans s t _ (same_KeepsOthers s t refl) (
                KeepsOthers->>= (gets (λ u. restamp records version val))
                  (λ bytes. (λ u. (ok tt, tier_insert world key bytes u)) >>= λ (_ : Unit {0}).
                    wal_enqueue world (record_update key bytes))
                  t (KeepsOthers-refl t) (λ bytes u. store_entry key bytes u)))
    ]
