-- ===== src/Storage/Wal/Durability.antt =====
-- src/storage/wal.rs: from the queue through the flushes and the writer thread to the recovery.
use kssql.Common.{
  ℕ, zero, suc, ◌-◌, ◌≤◌, ◌≡◌, refl, ap, ◌∙◌, sym, some, List, [], ◌∷◌, ◌++◌, append_assoc,
  append-nil, Bytes, length, length-append, arith, All, All-split, zeros,
}
use kssql.Storage.Codec.{Codec, IsFaithful}
use kssql.Storage.Wal.Frame.{WalEntry, frames}
use kssql.Storage.Wal.Queue.{Wal, WalRequest, fill, flush_pipeline}
use kssql.Storage.Wal.Writer.{
  LogFile, IsReliable, Writer, gap, pad, padded_size, write_batch, write_all, open_writer,
}
use kssql.Storage.Wal.Recover.{recover}
use kssql.Storage.Wal.Recover.Batches.{Encodes, AreClean, image, concat}
use kssql.Storage.Wal.RoundTrip.{recover-image}
use kssql.Storage.Wal.Flush
use kssql.Storage.Wal.Flush.{IsSettled, taken, sent, fill_lem, flush_pipeline_lem, fill-shrinks}

module _ (codec : Codec WalEntry) where
  unfoldable pub flush_times : ℕ → Wal → Wal
  flush_times zero wal = wal
  flush_times (suc n) wal = flush_times n (flush_pipeline codec wal)

  -- The batches that `n` flushes take from a queue.
  unfoldable pub batches : ℕ → ℕ → List WalEntry → List (List WalEntry)
  batches zero limit queue = []
  batches (suc n) limit queue =
      taken codec limit queue [] ∷ batches n limit (fill codec limit queue []).1

  pub requests_of : List (List WalEntry) → List WalRequest
  requests_of [] = []
  requests_of (b ∷ rest) = sent (frames codec b) ++ requests_of rest

  pub flush_times_lem :
      (n : ℕ) (wal : Wal)
      → IsSettled wal
      → IsSettled (flush_times n wal)
        × (concat codec (batches n wal.batch_limit wal.queue) ++ (flush_times n wal).queue
            ≡ wal.queue)
        × ((flush_times n wal).requests
            ≡ wal.requests ++ requests_of (batches n wal.batch_limit wal.queue))
        × (length (flush_times n wal).queue ≤ length wal.queue - n)
  unfolding flush_times batches requests_of concat
  flush_times_lem zero wal s = (s, refl, rw append-nil, omega arith)
  flush_times_lem (suc n) wal s =
      let (s', queue, requests, limit) = flush_pipeline_lem codec wal s in
      let took = fill_lem codec wal.batch_limit wal.queue [] in
      let (s'', left, sent, less) = flush_times_lem n (flush_pipeline codec wal) s' in
      let rest = (fill codec wal.batch_limit wal.queue []).1 in
      let bs = batches n wal.batch_limit rest in
      let left' : concat codec bs ++ (flush_times n (flush_pipeline codec wal)).queue ≡ rest =
        simp (limit, queue) at left in
      let sent' : (flush_times n (flush_pipeline codec wal)).requests
          ≡ (wal.requests ++ Flush.sent (frames codec (taken codec wal.batch_limit wal.queue [])))
            ++ requests_of bs =
        simp (limit, queue, requests) at sent in
      (
        s'',
        rw append_assoc (ap (λ l. taken codec wal.batch_limit wal.queue [] ++ l) left' ∙ took.0),
        rw (← append_assoc) sent',
        omega (
          arith,
          less,
          ap (length {A = WalEntry}) queue,
          fill-shrinks codec wal.batch_limit wal.queue [],
        ),
      )

module _ (log : LogFile) (reliable : IsReliable log) where
  open log use {File, contents}

  write_all-append :
      (writer : Writer log) (xs ys : List WalRequest)
      → write_all log writer (xs ++ ys) ≡ write_all log (write_all log writer xs) ys
  unfolding write_all
  write_all-append writer [] ys = refl
  write_all-append writer (x ∷ xs) ys = write_all-append (write_batch log writer x) xs ys

  -- The thread stays at the end of the file.
  abbrev IsAtEnd : Writer log → Type 0
  IsAtEnd writer = writer.offset ≡ length (contents writer.file)

  write_sent :
      (writer : Writer log) (batch : Bytes)
      → IsAtEnd writer
      → (contents (write_all log writer (sent batch)).file ≡ contents writer.file ++ pad batch)
        × IsAtEnd (write_all log writer (sent batch))
  unfolding write_all pad padded_size
  write_sent writer [] e = (rw append-nil, e)
  write_sent writer (x ∷ batch) e =
      let bytes = x ∷ batch ++ zeros (gap (suc (length batch))) in
      let whole = reliable.whole writer.file bytes in
      let added = reliable.added writer.file bytes in
      rw e (added, rw (whole, added) (sym (length-append (contents writer.file) bytes)))

  write_all_lem :
      (codec : Codec WalEntry) (bs : List (List WalEntry)) (writer : Writer log)
      → IsAtEnd writer
      → contents (write_all log writer (requests_of codec bs)).file
        ≡ contents writer.file ++ image codec bs
  unfolding requests_of image
  write_all_lem codec [] writer e = unfold write_all in (sym (append-nil (contents writer.file)))
  write_all_lem codec (b ∷ rest) writer e =
      let one = sent (frames codec b) in
      let (text, end) = write_sent writer (frames codec b) e in
      rw (
        write_all-append writer one (requests_of codec rest),
        write_all_lem codec rest (write_all log writer one) end,
        text,
        append_assoc,
      )

module _ (codec : Codec WalEntry) where
  All-concat :
      (P : WalEntry → Type 0) (bs : List (List WalEntry)) (rest : List WalEntry)
      → All P (concat codec bs ++ rest)
      → All (All P) bs
  unfolding concat
  All-concat P [] rest h = tt
  All-concat P (b ∷ bs) rest h =
      let (l, r) = All-split P b (concat codec bs ++ rest) (rw append_assoc at h) in
      (l, All-concat P bs rest r)

module _ (codec : Codec WalEntry) (faithful : IsFaithful codec) where
  -- From a settled log with no request under way and an empty file, whose queued entries all have
  -- an encoding that fits a frame: if after `n` flushes every batch but the last leaves no padding
  -- or at least four bytes of it, then what the recovery reads from the file that the writer thread
  -- has made is just the flushed entries, in the order in which they were queued; these and the
  -- entries still in the queue are the queue as it was; and every flush has taken one entry at
  -- least while there was one.
  pub recover-flush_times :
      (log : LogFile) (reliable : IsReliable log) (n : ℕ) (wal : Wal) (file : log.File)
      → IsSettled wal
      → wal.requests ≡ []
      → log.contents file ≡ []
      → All (Encodes codec) wal.queue
      → AreClean codec (batches codec n wal.batch_limit wal.queue)
      → (recover codec (
            log.contents
              (write_all log (open_writer log file) (flush_times codec n wal).requests).file)
          ≡ some (concat codec (batches codec n wal.batch_limit wal.queue)))
        × (concat codec (batches codec n wal.batch_limit wal.queue)
              ++ (flush_times codec n wal).queue
            ≡ wal.queue)
        × (length (flush_times codec n wal).queue ≤ length wal.queue - n)
  recover-flush_times log reliable n wal file s idle empty es clean =
      let bs = batches codec n wal.batch_limit wal.queue in
      let (s', all, requests, less) = flush_times_lem codec n wal s in
      let sent' : (flush_times codec n wal).requests ≡ requests_of codec bs =
        requests ∙ ap (λ l. l ++ requests_of codec bs) idle in
      let text =
        write_all_lem log reliable codec bs (open_writer log file) refl
        ∙ ap (λ l. l ++ image codec bs) empty in
      (
        rw (sent', text)
            (recover-image codec faithful bs
              (All-concat codec (Encodes codec) bs (flush_times codec n wal).queue (rw all es))
              clean),
        all,
        less,
      )
