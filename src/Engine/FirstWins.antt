-- ===== src/Engine/FirstWins.antt =====
-- src/parser/engine.rs: of two transactions that write the same row, the first to commit wins.
use kssql.Common.{
  ℕ, ◌+◌, ◌^◌, ◌<◌, ◌≤◌, ◌≡◌, ◌≢◌, ◌∙◌, ap, inl, inr, subst, some, none, [], ◌∷◌, Bytes, length,
  append-nil, bytes_equality, nat_equality, bytes_eq, arith, Bool-cases,
}
use kssql.Common.Dict
use kssql.Common.Dict.{Dict, IsUnique, get-remove}
use kssql.Common.Result.{Error, ok, err}
use kssql.Storage.Codec.{Codec, IsFaithful}
use kssql.Storage.Btree.Node.{Record}
use kssql.Storage.Wal.Queue.{queue_capacity}
use kssql.Engine.State.{Transaction, Engine, World, next_version}
use kssql.Engine.Transactions.{check_updates, commit}
use kssql.Engine.Refusal.{commit_refused}
use kssql.Engine.Commit.{IsStamped, closed, commit_lem}

module _ (records : Codec Record) (faithful : IsFaithful records) where
  -- Each row of the transaction has its stamped row, which is read back with the commit's version.
  stamped_row :
      (version : ℕ) (updates new : Dict Bytes Bytes) (key value : Bytes)
      → IsStamped records version updates new
      → Dict.get updates key ≡ some value
      → (bytes : Bytes) × (row : Record) × (Dict.get new key ≡ some bytes)
        × (records.deserialize bytes ≡ some (record row { version = version }))
  stamped_row version [] new key value h own = absurd (cc own)
  stamped_row version (x ∷ xs) [] key value h own = absurd (cc h)
  stamped_row version ((j, v) ∷ xs) ((k, d) ∷ ys) key value (same, (row, read, made), rest) own =
      elim (Bool-cases (bytes_eq j key)) [
        | inl here ↦
            let back = faithful.read_back (record row { version = version }) d 0 made in
            (
              d,
              row,
              ground (arith, same, here),
              subst (λ b. records.deserialize b ≡ some (record row { version = version }))
                  (append-nil d) back,
            )
        | inr other ↦
            let (bytes, row', there, read') =
              stamped_row version xs ys key value rest (ground (arith, own, other)) in
            (bytes, row', ground (arith, same, other, there), read')
      ]

module _ (world : World) (records : Codec Record) (faithful : IsFaithful records) where
  -- Two connections have open transactions that write the same key, the second's snapshot being no
  -- newer than the current version, which does not wrap. If the first passes its check, its rows can be
  -- stamped, with unique keys, the queue has room for them, and the memory tier still holds the row after its
  -- COMMIT, then the first's COMMIT succeeds and the second's fails.
  pub first_committer_wins :
      (a b : ℕ) (ta tb : Transaction) (s : Engine world.store) (new : Dict Bytes Bytes)
      (key va vb : Bytes)
      → a ≢ b
      → Dict.get s.active_transactions a ≡ some ta
      → Dict.get s.active_transactions b ≡ some tb
      → Dict.get ta.updates key ≡ some va
      → Dict.get tb.updates key ≡ some vb
      → tb.snapshot_version ≤ s.current_version
      → s.current_version + 1 < 2 ^ 64
      → (check_updates world records ta.updates ta.snapshot_version (closed world a s)).0 ≡ ok tt
      → IsStamped records (next_version s.current_version) ta.updates new
      → IsUnique new
      → length s.btree.wal.queue + length ta.updates ≤ queue_capacity
      → Dict.get (commit world records a s).1.btree.memory_tier.cache key ≢ none
      → ((commit world records a s).0 ≡ ok tt)
        × ((e : Error) × ((commit world records b (commit world records a s).1).0 ≡ err e))
  first_committer_wins a b ta tb s new key va vb differ open_a open_b own_a own_b old small passed
        stamped unique room kept =
      let done = commit_lem world records a ta s new open_a passed stamped unique room in
      let (bytes, row, there, read) =
        stamped_row records faithful (next_version s.current_version) ta.updates new key va stamped
          own_a in
      let still_open : Dict.get (commit world records a s).1.active_transactions b ≡ some tb =
        ap (λ l. Dict.get l b) done.3 ∙ ground (arith, get-remove s.active_transactions a b) in
      elim (done.4 key bytes there) [
        | inr evicted ↦ absurd (kept evicted)
        | inl held ↦ (
          done.0,
          (commit_refused world records b tb (commit world records a s).1 key vb bytes
              (record row { version = next_version s.current_version }) still_open own_b held read
              (omega (arith, old, small))).0,
        )
      ]
