-- ===== src/Storage/Wal/Tests.antt =====
-- src/storage/wal.rs: runs, and the theorems at concrete inputs.
use kssql.Common.Words.{to_le_bytes}
use kssql.Common.{
  ℕ, ◌+◌, ◌-◌, ◌<◌, ◌≤◌, ◌≡◌, ◌⊎◌, inr, refl, true, Option, none, some, List, [], ◌∷◌, ◌++◌, Bytes,
  zeros, length, take, take-append, arith,
}
use kssql.Common.Result.{ok, err, queue_saturated}
use kssql.Storage.Codec.{Codec, IsFaithful}
use kssql.Storage.Wal.Frame.{WalEntry, record_update, frame, frames}
use kssql.Storage.Wal.Queue.{Wal, fill, flush_pipeline, queue_capacity}
use kssql.Storage.Wal.Writer.{LogFile, IsReliable, padded_size, pad, gap, write_all, open_writer}
use kssql.Storage.Wal.Recover.{recover, recover_total}
use kssql.Storage.Wal.Recover.Batches.{AreClean, image, concat}
use kssql.Storage.Wal.Flush.{taken}
use kssql.Storage.Wal.Durability.{flush_times, batches, recover-flush_times}
use kssql.Storage.Wal.Loss.{recover_loses, misread}
use kssql.Storage.Wal.Enqueue.{enqueue, enqueue_lem, queue_after}

-- An encoding of updates under keys of one byte.
abbrev encode : WalEntry → Option Bytes
encode (record_update (k ∷ []) value) = some (2 ∷ k ∷ length value ∷ value)
encode _ = none

abbrev decode : Bytes → Option WalEntry
decode (t ∷ k ∷ n ∷ rest) = some (record_update (k ∷ []) (take n rest))
decode _ = none

abbrev test_codec : Codec WalEntry
test_codec = record { serialize = encode; deserialize = decode }

read_back : (a : WalEntry) (b : Bytes) (n : ℕ) → encode a ≡ some b → decode (b ++ zeros n) ≡ some a
read_back (record_update (k ∷ []) value) b n h =
    let same : b ≡ 2 ∷ k ∷ length value ∷ value = cc in
    rw (same, take-append (length value) value (zeros n) refl)
read_back _ b n h = cc

-- A file that holds its bytes.
abbrev test_log : LogFile
test_log = record {
  File = Bytes;
  contents = λ file. file;
  write_at = λ file bytes offset. (some (length bytes), file ++ bytes);
}

reliable : IsReliable test_log
reliable = record { whole = λ file bytes. refl; added = λ file bytes. refl }

nonempty : (a : WalEntry) (b : Bytes) → encode a ≡ some b → 0 < length b
nonempty (record_update (k ∷ []) value) b h =
    let same : b ≡ 2 ∷ k ∷ length value ∷ value = cc in rw same (omega arith)
nonempty _ b h = cc

faithful : IsFaithful test_codec
faithful = record { read_back = read_back; nonempty = nonempty }

abbrev first : WalEntry
first = record_update (1 ∷ []) (10 ∷ [])

abbrev second : WalEntry
second = record_update (2 ∷ []) (20 ∷ 21 ∷ [])

-- Two entries in the queue, and a limit that makes two batches of them.
abbrev loaded : Wal
loaded = record {
  queue = first ∷ second ∷ [];
  requests = [];
  buffer_a = [];
  buffer_b = [];
  active_is_a = true;
  batch_limit = 1;
  recovered_entries = [];
}

flush_once : (flush_pipeline test_codec loaded).queue ≡ second ∷ []
unfolding flush_pipeline fill frame to_le_bytes
flush_once = refl

two_batches : batches test_codec 2 1 loaded.queue ≡ (first ∷ []) ∷ (second ∷ []) ∷ []
unfolding batches taken fill frame to_le_bytes
two_batches = refl

clean : AreClean test_codec (batches test_codec 2 1 loaded.queue)
unfolding batches taken fill frames frame padded_size to_le_bytes
clean = (inr (omega arith), tt)

recover-flush_times_example :
    (recover test_codec (
        test_log.contents
          (write_all test_log
            (open_writer test_log [])
            (flush_times test_codec 2 loaded).requests).file)
      ≡ some (concat test_codec (batches test_codec 2 1 loaded.queue)))
    × (concat test_codec (batches test_codec 2 1 loaded.queue)
          ++ (flush_times test_codec 2 loaded).queue
        ≡ loaded.queue)
    × (length (flush_times test_codec 2 loaded).queue ≤ length loaded.queue - 2)
recover-flush_times_example =
    recover-flush_times test_codec faithful test_log reliable 2 loaded []
      (record { empty_a = refl; empty_b = refl; within = omega arith }) refl refl
      (
        (2 ∷ 1 ∷ 1 ∷ 10 ∷ [], refl, omega arith),
        ((2 ∷ 2 ∷ 2 ∷ 20 ∷ 21 ∷ [], refl, omega arith), tt),
      )
      clean

-- An entry whose frame has 4093 bytes.
abbrev long : WalEntry
long = record_update (1 ∷ []) (zeros 4086)

abbrev long_batch : List WalEntry
long_batch = long ∷ []

long_gap :
    (0 < gap (length (frames test_codec long_batch)))
    × (gap (length (frames test_codec long_batch)) < 4)
unfolding frames frame padded_size to_le_bytes
long_gap = (omega arith, omega arith)

long_cut :
    (0 < misread (gap (length (frames test_codec long_batch))) 4)
    × (length (image test_codec (long_batch ∷ (first ∷ []) ∷ []))
        < length (frames test_codec long_batch)
          + 4
          + misread (gap (length (frames test_codec long_batch))) 4)
unfolding image pad frames frame padded_size to_le_bytes
long_cut = (omega arith, omega arith)

recover_loses_example :
    recover test_codec (image test_codec (long_batch ∷ (first ∷ []) ∷ [])) ≡ some long_batch
recover_loses_example =
    recover_loses test_codec faithful long_batch first [] [] (2 ∷ 1 ∷ 1 ∷ 10 ∷ [])
      ((2 ∷ 1 ∷ 4086 ∷ zeros 4086, refl, omega arith), tt) refl (omega arith) long_gap.0 long_gap.1
      long_cut.0 long_cut.1

recover_total_example : (r : List WalEntry) × (recover test_codec (1 ∷ 0 ∷ 0 ∷ 0 ∷ 7 ∷ []) ≡ some r)
recover_total_example = recover_total test_codec (1 ∷ 0 ∷ 0 ∷ 0 ∷ 7 ∷ [])

enqueue_lem_example :
    ((n : ℕ) × (n < 1002)
      × (length (queue_after (λ retries queue. queue) 0 n []) < queue_capacity)
      × (enqueue (λ retries queue. queue) first []
          ≡ some (ok (queue_after (λ retries queue. queue) 0 n [] ++ first ∷ []))))
    ⊎ (((n : ℕ) → n < 1002 → queue_capacity ≤ length (queue_after (λ retries queue. queue) 0 n []))
        × (enqueue (λ retries queue. queue) first [] ≡ some (err queue_saturated)))
enqueue_lem_example = enqueue_lem (λ retries queue. queue) first []
