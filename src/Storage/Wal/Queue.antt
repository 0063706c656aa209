-- ===== src/Storage/Wal/Queue.antt =====
-- src/storage/wal.rs: the bounded queue of entries, the two buffers, and `flush_pipeline`, which
-- moves entries from the queue into the active buffer and sends that to the writer thread.
use kssql.Common.{
  ℕ, zero, suc, ◌+◌, ◌*◌, ◌%◌, ◌^◌, Bool, true, not, Option, none, some, List, [], ◌∷◌, ◌++◌, Bytes,
  length, ltb, leb, ◌==◌, if◌then◌else◌,
}
use kssql.Common.Result.{Result, ok, err, queue_saturated}
use kssql.Storage.Codec.{Codec}
use kssql.Storage.Wal.Frame.{WalEntry, frame}

pub data WalRequest : Type 0 where
  flush : Bytes → WalRequest

-- `requests` is the channel to the writer thread, oldest request first.
pub record Wal : Type 0 where
  pub queue : List WalEntry
  pub requests : List WalRequest
  pub buffer_a : Bytes
  pub buffer_b : Bytes
  pub active_is_a : Bool
  pub batch_limit : ℕ
  pub recovered_entries : List WalEntry

abbrev pub queue_capacity : ℕ
queue_capacity = 1_000_000

-- `Wal::open`, after the walk over the log
unfoldable pub open_wal : List WalEntry → Wal
open_wal recovered = record {
  queue = [];
  requests = [];
  buffer_a = [];
  buffer_b = [];
  active_is_a = true;
  batch_limit = 32 * 1024 * 1024;
  recovered_entries = recovered;
}

unfoldable pub set_batch_limit : ℕ → Wal → Wal
set_batch_limit limit_bytes wal = record wal { batch_limit = limit_bytes }

-- One `ArrayQueue::push`; `none` where the queue is full.
unfoldable pub push : WalEntry → List WalEntry → Option (List WalEntry)
push entry queue = if ltb (length queue) queue_capacity then some (queue ++ entry ∷ []) else none

-- The loop of `enqueue`. While it sleeps for the `retries`-th time, the other threads turn the queue
-- into `others retries queue`.
unfoldable pub enqueue_loop :
    (ℕ → List WalEntry → List WalEntry)
    → ℕ
    → ℕ
    → WalEntry
    → List WalEntry
    → Option (Result (List WalEntry))
unfolding push
enqueue_loop others zero retries entry queue = none
enqueue_loop others (suc fuel) retries entry queue =
    let again = enqueue_loop others fuel (retries + 1) entry (others retries queue) in
    elim (push entry queue) [
      | some pushed ↦ some (ok pushed)
      | none ↦ if ltb 1000 retries then some (err queue_saturated) else again
    ]

unfoldable pub pop_entry : Wal → Option WalEntry × Wal
pop_entry wal = elim wal.queue [
  | [] ↦ (none, wal)
  | entry ∷ rest ↦ (some entry, record wal { queue = rest })
]

-- `read_all` hands the recovered entries over once.
unfoldable pub read_all : Wal → List WalEntry × Wal
read_all wal = (wal.recovered_entries, record wal { recovered_entries = [] })

unfoldable pub adaptive_limit : ℕ → ℕ → ℕ
adaptive_limit q_len limit = if ltb 1_000_000 q_len then limit * 4 % 2 ^ 64 else limit

abbrev pub active_buffer : Wal → Bytes
active_buffer wal = if wal.active_is_a then wal.buffer_a else wal.buffer_b

abbrev pub with_active : Wal → Bytes → Wal
with_active wal bytes =
    if wal.active_is_a then record wal { buffer_a = bytes } else record wal { buffer_b = bytes }

abbrev pub send_batch : Wal → Bytes → Wal
send_batch wal [] = with_active wal []
send_batch wal (x ∷ batch) = record (with_active wal []) {
  active_is_a = not wal.active_is_a;
  requests = wal.requests ++ flush (x ∷ batch) ∷ [];
}

module _ (codec : Codec WalEntry) where
  -- `while let Some(entry) = self.queue.pop()`: the active buffer and the queue that is left
  unfoldable pub fill : ℕ → List WalEntry → Bytes → Bytes × List WalEntry
  fill limit [] active = (active, [])
  fill limit (entry ∷ rest) active =
      let active' = active ++ frame codec entry in
      let more = fill limit rest active' in
      if leb limit (length active') then (active', rest) else more

  unfoldable pub flush_pipeline : Wal → Wal
  unfolding adaptive_limit
  flush_pipeline wal =
      let filled =
        fill (adaptive_limit (length wal.queue) wal.batch_limit) wal.queue (active_buffer wal) in
      if length wal.queue == 0 then wal else send_batch (record wal { queue = filled.1 }) filled.0
