-- ===== src/Storage/Btree/Open/Replay.antt =====
-- src/storage/btree.rs: after `open` the pages are as the log has them last.
use kssql.Common.{
  ℕ, ◌+◌, ◌<◌, ◌^◌, max, All, ◌*◌, ◌-◌, ◌≡◌, ◌≢◌, ◌⊎◌, ◌≤◌, sym, ap, ◌∙◌, subst, some, List, [],
  ◌∷◌, ◌++◌, Bytes, zeros, length, take, arith, inl, inr, Option-cases, length-append, length-zeros,
  length-take,
}
use kssql.Common.Int.{ℤ}
use kssql.Common.Result.{ok}
use kssql.Common.Exec.{>>=-ok}
use kssql.Storage.Codec.{Codec}
use kssql.Storage.Pager.{Disk, IsDisk, page_size, write_page, stamp, num_pages}
use kssql.Storage.Pager.Checksum.{length-stamp}
use kssql.Storage.Pager.Length.{IsWhole, write_page-IsWhole}
use kssql.Storage.Wal.Frame.{
  WalEntry, page_update, record_update, transaction_start, transaction_commit, transaction_rollback,
}
use kssql.Storage.Btree.Node.{Node}
use kssql.Storage.Btree.Pages.SaveNode.{WritesWhole}
use kssql.Storage.Btree.Open.{Opened, page_image, replay_page, replay_record, replay_entry, replay}

-- The entry is no update of the page.
abbrev pub IsOther : ℕ → WalEntry → Type 0
IsOther page_id (page_update other bytes) = page_id ≢ other
IsOther page_id _ = Unit

-- The page of the entry, if it has one, is below the last `u32`.
abbrev pub IsSmall : WalEntry → Type 0
IsSmall (page_update page_id bytes) = page_id < 2 ^ 32 - 1
IsSmall _ = Unit

length-page_image : (bytes : Bytes) → length (page_image bytes) ≡ page_size
length-page_image bytes = omega (
  arith,
  length-append (take page_size bytes) (zeros (page_size - length bytes)),
  length-take page_size bytes,
  length-zeros (page_size - length bytes),
)

module _ (disk : Disk) (nodes : Codec Node) (clock : ℕ → ℤ) (laws : IsDisk disk)
    (whole : WritesWhole disk) where
  -- What the file has for a page.
  abbrev Holds : ℕ → Bytes → Opened disk nodes clock → Type 0
  Holds page_id bytes s = disk.read_at s.pager.file (page_id * page_size) ≡ some bytes

  replay_page_lem :
      (page_id : ℕ) (bytes : Bytes) (s : Opened disk nodes clock) (u : Unit {0})
      → (replay_page disk nodes clock page_id bytes s).0 ≡ ok u
      → Holds page_id
          (stamp disk (page_image bytes))
          (replay_page disk nodes clock page_id bytes s).1
        × ((other : ℕ) (old : Bytes)
            → other ≢ page_id
            → length old ≡ page_size
            → Holds other old s
            → Holds other old (replay_page disk nodes clock page_id bytes s).1)
  unfolding replay_page write_page
  replay_page_lem page_id bytes s u done =
      let page = stamp disk (page_image bytes) in
      let offset = page_id * page_size in
      let long = length-stamp disk (page_image bytes) (length-page_image bytes) in
      elim (Option-cases (disk.write_at s.pager.file page offset).0) [
        | inl bad ↦ absurd (ground (arith, bad, done))
        | inr (n, wrote) ↦
            let all = wrote ∙ ap some (whole s.pager.file page offset n wrote) in
            rw (replay_page, wrote)
              (
                laws.read_back s.pager.file page offset long all,
                λ other old ne size held.
                    let apart : (other * page_size + length old ≤ offset)
                        ⊎ (offset + length page ≤ other * page_size) =
                      grind arith in
                    laws.read_other s.pager.file page offset (other * page_size) old long all apart
                      size held,
              )
      ]

  -- A step keeps whole pages, takes none away, and leaves the pages that it does not update.
  abbrev Grows : (ℕ → Type 0) → Opened disk nodes clock → Opened disk nodes clock → Type 0
  Grows other s t =
      IsWhole disk t.pager
      × (num_pages disk s.pager ≤ num_pages disk t.pager)
      × ((id : ℕ) (old : Bytes)
          → other id
          → length old ≡ page_size
          → Holds id old s
          → Holds id old t)

  replay_page-Grows :
      (page_id : ℕ) (bytes : Bytes) (s : Opened disk nodes clock) (u : Unit {0})
      → page_id < 2 ^ 32 - 1
      → IsWhole disk s.pager
      → (replay_page disk nodes clock page_id bytes s).0 ≡ ok u
      → Grows (λ id. id ≢ page_id) s (replay_page disk nodes clock page_id bytes s).1
        × (page_id + 1 ≤ num_pages disk (replay_page disk nodes clock page_id bytes s).1.pager)
  unfolding replay_page
  replay_page-Grows page_id bytes s u small aligned done =
      let (held, others) = replay_page_lem page_id bytes s u done in
      let (aligned', size) =
        write_page-IsWhole disk page_id (page_image bytes) s.pager small aligned in
      let larger : num_pages disk (replay_page disk nodes clock page_id bytes s).1.pager
          ≡ max (num_pages disk s.pager) (page_id + 1) =
        ground (arith, size, done) in
      ((aligned', omega (arith, larger), others), omega (arith, larger))

  replay_entry-Grows :
      (entry : WalEntry) (s : Opened disk nodes clock) (u : Unit {0})
      → IsSmall entry
      → IsWhole disk s.pager
      → (replay_entry disk nodes clock entry s).0 ≡ ok u
      → Grows (λ id. IsOther id entry) s (replay_entry disk nodes clock entry s).1
  unfolding replay_record
  replay_entry-Grows (page_update page_id bytes) s u small aligned done =
      (replay_page-Grows page_id bytes s u small aligned done).0
  replay_entry-Grows (record_update key bytes) s u small aligned done =
      (aligned, omega arith, λ id old other size held. held)
  replay_entry-Grows (transaction_start id) s u small aligned done =
      (aligned, omega arith, λ id old other size held. held)
  replay_entry-Grows (transaction_commit id version time) s u small aligned done =
      (aligned, omega arith, λ id old other size held. held)
  replay_entry-Grows (transaction_rollback id) s u small aligned done =
      (aligned, omega arith, λ id old other size held. held)

  -- The first entry of a replay that succeeds, and the rest.
  replay-cons :
      (entry : WalEntry) (entries : List WalEntry) (s : Opened disk nodes clock) (u : Unit {0})
      → (replay disk nodes clock (entry ∷ entries) s).0 ≡ ok u
      → (v : Unit {0}) × ((replay_entry disk nodes clock entry s).0 ≡ ok v)
        × (replay disk nodes clock (entry ∷ entries) s
            ≡ replay disk nodes clock entries (replay_entry disk nodes clock entry s).1)
  unfolding replay
  replay-cons entry entries s u done =
      >>=-ok (replay_entry disk nodes clock entry)
        (λ (v : Unit {0}). replay disk nodes clock entries) s u done

  replay-Grows :
      (entries : List WalEntry) (s : Opened disk nodes clock) (u : Unit {0})
      → All IsSmall entries
      → IsWhole disk s.pager
      → (replay disk nodes clock entries s).0 ≡ ok u
      → Grows (λ id. All (λ e. IsOther id e) entries) s (replay disk nodes clock entries s).1
  unfolding replay
  replay-Grows [] s u small aligned done = (aligned, omega arith, λ id old other size held. held)
  replay-Grows (entry ∷ entries) s u small aligned done =
      let (v, first, on) = replay-cons entry entries s u done in
      let (aligned', more, kept) = replay_entry-Grows entry s v small.0 aligned first in
      let t = (replay_entry disk nodes clock entry s).1 in
      let ih = replay-Grows entries t u small.1 aligned' (sym (ap (λ r. r.0) on) ∙ done) in
      subst (λ r. Grows (λ id. All (λ e. IsOther id e) (entry ∷ entries)) s r.1) (sym on)
        (
          ih.0,
          omega (arith, more, ih.1),
          λ id old other size held. ih.2 id old other.1 size (kept id old other.0 size held),
        )

  -- The last update of a page is what the file has in the end.
  pub replay_last :
      (before after : List WalEntry) (page_id : ℕ) (bytes : Bytes) (s : Opened disk nodes clock)
      (u : Unit {0})
      → All IsSmall (before ++ page_update page_id bytes ∷ after)
      → All (λ e. IsOther page_id e) after
      → IsWhole disk s.pager
      → (replay disk nodes clock (before ++ page_update page_id bytes ∷ after) s).0 ≡ ok u
      → let t = (replay disk nodes clock (before ++ page_update page_id bytes ∷ after) s).1 in
        Holds page_id (stamp disk (page_image bytes)) t × (1 ≤ num_pages disk t.pager)
  unfolding replay
  replay_last [] after page_id bytes s u small other aligned done =
      let (v, first, on) = replay-cons (page_update page_id bytes) after s u done in
      let t = (replay_page disk nodes clock page_id bytes s).1 in
      let ((aligned', more, kept), some_page) =
        replay_page-Grows page_id bytes s v small.0 aligned first in
      let rest = replay-Grows after t u small.1 aligned' (sym (ap (λ r. r.0) on) ∙ done) in
      subst
        (λ r. Holds page_id (stamp disk (page_image bytes)) r.1 × (1 ≤ num_pages disk r.1.pager))
        (sym on)
        (
          rest.2 page_id (stamp disk (page_image bytes)) other
              (length-stamp disk (page_image bytes) (length-page_image bytes))
              (replay_page_lem page_id bytes s v first).0,
          omega (arith, some_page, rest.1),
        )
  replay_last (entry ∷ before) after page_id bytes s u small other aligned done =
      let entries = before ++ page_update page_id bytes ∷ after in
      let (v, first, on) = replay-cons entry entries s u done in
      let t = (replay_entry disk nodes clock entry s).1 in
      let (aligned', more, kept) = replay_entry-Grows entry s v small.0 aligned first in
      subst
        (λ r. Holds page_id (stamp disk (page_image bytes)) r.1 × (1 ≤ num_pages disk r.1.pager))
        (sym on)
        (replay_last before after page_id bytes t u small.1 other aligned'
          (sym (ap (λ r. r.0) on) ∙ done))
