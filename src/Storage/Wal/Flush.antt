-- ===== src/Storage/Wal/Flush.antt =====
-- src/storage/wal.rs: which entries `flush_pipeline` takes from the queue, and in which batches.
use kssql.Common.{
  ℕ, ◌-◌, ◌≤◌, ◌≡◌, refl, ap, List, [], ◌∷◌, ◌++◌, append_assoc, append-nil, Bytes, length,
  length-append, arith, leb, ◌==◌, if◌then◌else◌, Bool-cases, inl, inr,
}
use kssql.Storage.Codec.{Codec}
use kssql.Storage.Wal.Frame.{WalEntry, frame, frames}
use kssql.Storage.Wal.Queue.{
  Wal, WalRequest, flush, fill, flush_pipeline, adaptive_limit, queue_capacity, pop_entry, open_wal,
  active_buffer, send_batch,
}

-- Between two calls both buffers are empty, and the queue is within its capacity.
pub record IsSettled (wal : Wal) : Type 0 where
  pub empty_a : wal.buffer_a ≡ []
  pub empty_b : wal.buffer_b ≡ []
  pub within : length wal.queue ≤ queue_capacity

pub open_wal-IsSettled : (recovered : List WalEntry) → IsSettled (open_wal recovered)
unfolding open_wal
open_wal-IsSettled recovered = ground arith

pub pop_entry-IsSettled : (wal : Wal) → IsSettled wal → IsSettled (pop_entry wal).1
unfolding pop_entry
pop_entry-IsSettled wal s = ground arith

-- What is sent to the writer thread for a batch.
abbrev pub sent : Bytes → List WalRequest
sent [] = []
sent (x ∷ batch) = flush (x ∷ batch) ∷ []

send_batch_lem :
    (wal : Wal) (batch : Bytes)
    → IsSettled wal
    → IsSettled (send_batch wal batch)
      × ((send_batch wal batch).requests ≡ wal.requests ++ sent batch)
      × ((send_batch wal batch).queue ≡ wal.queue)
      × ((send_batch wal batch).batch_limit ≡ wal.batch_limit)
send_batch_lem wal [] s = ground (arith, append-nil wal.requests)
send_batch_lem wal (x ∷ batch) s = ground arith

-- The branch that raises the limit is never taken: the queue cannot hold that many entries.
pub adaptive_limit-within : (n limit : ℕ) → n ≤ queue_capacity → adaptive_limit n limit ≡ limit
unfolding adaptive_limit
adaptive_limit-within n limit h = ground arith

active_buffer_lem : (wal : Wal) → IsSettled wal → active_buffer wal ≡ []
active_buffer_lem wal s = ground arith

module _ (codec : Codec WalEntry) where
  -- The entries that one flush takes: up to the first at which the buffer reaches the limit.
  unfoldable pub taken : ℕ → List WalEntry → Bytes → List WalEntry
  taken limit [] active = []
  taken limit (entry ∷ rest) active =
      let active' = active ++ frame codec entry in
      let more = taken limit rest active' in
      if leb limit (length active') then entry ∷ [] else entry ∷ more

  pub fill_lem :
      (limit : ℕ) (queue : List WalEntry) (active : Bytes)
      → (taken limit queue active ++ (fill codec limit queue active).1 ≡ queue)
        × ((fill codec limit queue active).0 ≡ active ++ frames codec (taken limit queue active))
  unfolding fill taken frames
  fill_lem limit [] active = (refl, rw append-nil)
  fill_lem limit (entry ∷ rest) active =
      let active' = active ++ frame codec entry in
      let ih = fill_lem limit rest active' in
      elim (Bool-cases (leb limit (length active'))) [
        | inl full ↦ rw (full, append-nil) (refl, refl)
        | inr room ↦ rw room (ap (λ l. entry ∷ l) ih.0, rw (ih.1, append_assoc))
      ]

  pub flush_pipeline_lem :
      (wal : Wal)
      → IsSettled wal
      → IsSettled (flush_pipeline codec wal)
        × ((flush_pipeline codec wal).queue ≡ (fill codec wal.batch_limit wal.queue []).1)
        × ((flush_pipeline codec wal).requests
            ≡ wal.requests ++ sent (frames codec (taken wal.batch_limit wal.queue [])))
        × ((flush_pipeline codec wal).batch_limit ≡ wal.batch_limit)
  unfolding flush_pipeline fill taken frames
  flush_pipeline_lem wal s = elim (Bool-cases (length wal.queue == 0)) [
    | inl idle ↦
        let none_left : wal.queue ≡ [] = ground arith in
        rw idle (s, rw (none_left, fill) refl, rw (none_left, append-nil), refl)
    | inr busy ↦
        let took = fill_lem wal.batch_limit wal.queue [] in
        let out = fill codec wal.batch_limit wal.queue [] in
        let sending =
          send_batch_lem (record wal { queue = out.1 }) out.0
            (record {
              empty_a = s.empty_a;
              empty_b = s.empty_b;
              within = omega (
                arith,
                ap (length {A = WalEntry}) took.0,
                length-append (taken wal.batch_limit wal.queue []) out.1,
                s.within,
              );
            }) in
        rw
          (
            busy,
            adaptive_limit-within (length wal.queue) wal.batch_limit s.within,
            active_buffer_lem wal s,
          )
          (sending.0, sending.2, rw (sending.1, took.1), sending.3)
  ]

  -- A flush takes one entry at least.
  pub fill-shrinks :
      (limit : ℕ) (queue : List WalEntry) (active : Bytes)
      → length (fill codec limit queue active).1 ≤ length queue - 1
  unfolding fill
  fill-shrinks limit [] active = omega arith
  fill-shrinks limit (entry ∷ rest) active =
      ground (arith, fill-shrinks limit rest (active ++ frame codec entry))
