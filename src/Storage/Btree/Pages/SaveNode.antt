-- ===== src/Storage/Btree/Pages/SaveNode.antt =====
-- src/storage/btree.rs: a saved node is read back, and stands in the log.
use kssql.Common.{
  ℕ, ◌-◌, ◌*◌, ◌≤◌, ◌≡◌, refl, sym, ap, ◌∙◌, some, List, ◌++◌, Bytes, zeros, length, drop, arith,
  inl, inr, Option-cases, Bool-cases, ltb, length-append, length-zeros,
}
use kssql.Common.Result.{ok, Result-cases}
use kssql.Common.Exec.{>>=-ok, gets, ◌>>=◌}
use kssql.Storage.Codec.{Codec, IsFaithful}
use kssql.Storage.Pager.{Disk, IsDisk, page_size, write_page, stamp}
use kssql.Storage.Pager.Checksum.{read_page-write_page, drop-stamp, length-stamp}
use kssql.Storage.Wal.Frame.{WalEntry, page_update}
use kssql.Storage.Wal.Enqueue.{enqueue}
use kssql.Storage.Btree.Node.{Node, to_bytes, from_bytes}
use kssql.Storage.Btree.Pages.{Pages, read_node, log_entry, put_page, save_node}

-- A write to the file that is no error is whole.
abbrev pub WritesWhole : Disk → Type 0
WritesWhole disk =
    (file : disk.File) (page : Bytes) (offset n : ℕ)
    → (disk.write_at file page offset).0 ≡ some n
    → n ≡ length page

module _ (nodes : Codec Node) where
  -- The bytes of a node fill a page, and are read as the node, whatever their first four bytes are.
  pub to_bytes_lem :
      (faithful : IsFaithful nodes) (node : Node) (bytes : Bytes)
      → to_bytes nodes node ≡ ok bytes
      → (length bytes ≡ page_size)
        × ((page : Bytes) → drop 4 page ≡ drop 4 bytes → from_bytes nodes page ≡ ok node)
  unfolding to_bytes from_bytes
  to_bytes_lem faithful node bytes h = elim (Option-cases (nodes.serialize node)) [
    | inl bad ↦ absurd (ground (arith, bad, h))
    | inr (encoded, good) ↦ elim (Bool-cases (ltb (page_size - 4) (length encoded))) [
      | inl large ↦ absurd (ground (arith, good, large, h))
      | inr fits ↦
          let body = encoded ++ zeros (page_size - 4 - length encoded) in
          let e : zeros 4 ++ body ≡ bytes = ground (arith, good, fits, h) in
          let small : length encoded ≤ page_size - 4 = ground (arith, fits) in
          let back = faithful.read_back node encoded (page_size - 4 - length encoded) good in
          (
            sym (ap length e)
                ∙ omega (
                  arith,
                  small,
                  length-append encoded (zeros (page_size - 4 - length encoded)),
                  length-zeros (page_size - 4 - length encoded),
                ),
            λ page same. rw (from_bytes, same ∙ ap (drop 4) (sym e), back) refl,
          )
    ]
  ]

module _ (disk : Disk) (nodes : Codec Node) (others : ℕ → List WalEntry → List WalEntry) where
  -- A page that was put is read back as the node that its bytes encode.
  pub read_node-put_page :
      (laws : IsDisk disk) (whole : WritesWhole disk) (faithful : IsFaithful nodes) (page_id : ℕ)
      (node : Node) (bytes : Bytes) (s : Pages disk nodes others)
      → to_bytes nodes node ≡ ok bytes
      → (put_page disk nodes others page_id bytes s).0 ≡ ok tt
      → read_node disk nodes others (put_page disk nodes others page_id bytes s).1 page_id ≡ ok node
  unfolding put_page read_node write_page
  read_node-put_page laws whole faithful page_id node bytes s made done =
      let (long, read) = to_bytes_lem nodes faithful node bytes made in
      elim (Option-cases (disk.write_at s.pager.file (stamp disk bytes) (page_id * page_size)).0) [
        | inl bad ↦ absurd (ground (arith, bad, done))
        | inr (n, wrote) ↦
            let all = whole s.pager.file (stamp disk bytes) (page_id * page_size) n wrote in
            let back =
              read_page-write_page disk laws page_id bytes s.pager long
                (wrote ∙ ap some (all ∙ length-stamp disk bytes long)) in
            rw (read_node, back.1) (read (stamp disk bytes) (drop-stamp disk bytes))
      ]

  log_entry_lem :
      (entry : WalEntry) (s : Pages disk nodes others) (u : Unit {0})
      → (log_entry disk nodes others entry s).0 ≡ ok u
      → ((log_entry disk nodes others entry s).1.pager ≡ s.pager)
        × (enqueue others entry s.wal.queue
            ≡ some (ok (log_entry disk nodes others entry s).1.wal.queue))
  unfolding log_entry
  log_entry_lem entry s u done = elim (Option-cases (enqueue others entry s.wal.queue)) [
    | inl never ↦ absurd (ground (arith, never, done))
    | inr (r, some_r) ↦ elim (Result-cases r) [
      | inl (queue, fine) ↦ rw (log_entry, some_r, fine) (refl, refl)
      | inr (e, bad) ↦ absurd (ground (arith, some_r, bad, done))
    ]
  ]

  -- A save that succeeds: the bytes that are written, and the state that they are written in.
  pub save_node_run :
      (page_id : ℕ) (node : Node) (s : Pages disk nodes others)
      → (save_node disk nodes others page_id node s).0 ≡ ok tt
      → (bytes : Bytes) × (t : Pages disk nodes others) × (to_bytes nodes node ≡ ok bytes)
        × (t.pager ≡ s.pager)
        × (enqueue others (page_update page_id bytes) s.wal.queue ≡ some (ok t.wal.queue))
        × (save_node disk nodes others page_id node s ≡ put_page disk nodes others page_id bytes t)
  unfolding save_node
  save_node_run page_id node s done =
      let after = λ (bytes : Bytes).
        log_entry disk nodes others (page_update page_id bytes) >>= λ (u : Unit {0}).
        put_page disk nodes others page_id bytes in
      let (bytes, made, on) = >>=-ok (gets (λ pages. to_bytes nodes node)) after s tt done in
      let (u, queued, on') =
        >>=-ok (log_entry disk nodes others (page_update page_id bytes))
          (λ (u : Unit {0}). put_page disk nodes others page_id bytes) s tt
          (sym (ap (λ r. r.0) on) ∙ done) in
      let (pager, line) = log_entry_lem (page_update page_id bytes) s u queued in
      (
        bytes,
        (log_entry disk nodes others (page_update page_id bytes) s).1,
        made,
        pager,
        line,
        on ∙ on',
      )

  -- On a disk that reads back what was written, and whose writes are whole if they succeed: a node whose
  -- save succeeds is read back, and the page that `to_bytes` makes of it has been queued for the log.
  pub read_node-save_node :
      (laws : IsDisk disk) (whole : WritesWhole disk) (faithful : IsFaithful nodes) (page_id : ℕ)
      (node : Node) (s : Pages disk nodes others)
      → (save_node disk nodes others page_id node s).0 ≡ ok tt
      → (read_node disk nodes others (save_node disk nodes others page_id node s).1 page_id
          ≡ ok node)
        × ((bytes : Bytes) × (to_bytes nodes node ≡ ok bytes)
            × (enqueue others (page_update page_id bytes) s.wal.queue
                ≡ some (ok (save_node disk nodes others page_id node s).1.wal.queue)))
  unfolding save_node
  read_node-save_node laws whole faithful page_id node s done =
      let (bytes, t, made, pager, line, run) = save_node_run page_id node s done in
      let read =
        read_node-put_page laws whole faithful page_id node bytes t made
          (sym (ap (λ r. r.0) run) ∙ done) in
      (
        ap (λ r. read_node disk nodes others r.1 page_id) run ∙ read,
        (bytes, made, line ∙ ap (λ r. some (ok r.1.wal.queue)) (sym run)),
      )
