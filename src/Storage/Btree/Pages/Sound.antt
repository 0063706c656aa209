-- ===== src/Storage/Btree/Pages/Sound.antt =====
-- src/storage/btree.rs: the file has all pages that are counted, and keeps them.
use kssql.Common.{
  ℕ, ◌+◌, ◌-◌, ◌*◌, ◌^◌, ◌<◌, ◌≤◌, ◌≡◌, ◌≢◌, ◌⊎◌, refl, sym, ap, ◌∙◌, subst, max, some, Bytes,
  length, arith, inl, inr, Option-cases, Bool-cases, ◌==◌, ==_iff,
}
use kssql.Common.Result.{ok}
use kssql.Storage.Pager.{Disk, IsDisk, Pager, page_size, read_page, write_page, stamp, num_pages}
use kssql.Storage.Pager.Checksum.{length-stamp, read_page-write_page_ne}
use kssql.Storage.Pager.Length.{IsWhole, write_page-IsWhole}
use kssql.Storage.Btree.Pages.SaveNode.{WritesWhole}

module _ (disk : Disk) where
  -- The file has these bytes at the place of a page.
  abbrev pub HasPage : Pager disk → ℕ → Bytes → Type 0
  HasPage pager id bytes =
      (disk.read_at pager.file (id * page_size) ≡ some bytes) × (length bytes ≡ page_size)

  -- The length is a whole number of pages, and each of them can be read whole.
  pub record IsSound (pager : Pager disk) : Type 0 where
    pub whole : IsWhole disk pager
    pub present : (id : ℕ) → id < num_pages disk pager → (bytes : Bytes) × HasPage pager id bytes

  pub num_pages-lt : (pager : Pager disk) → num_pages disk pager < 2 ^ 32
  unfolding num_pages
  num_pages-lt pager = omega arith

  module _ (laws : IsDisk disk) (whole : WritesWhole disk) where
    -- A write of a page that succeeds is whole.
    written_whole :
        (page_id : ℕ) (page : Bytes) (pager : Pager disk)
        → length page ≡ page_size
        → (write_page disk page_id page pager).0 ≡ ok tt
        → ((disk.write_at pager.file (stamp disk page) (page_id * page_size)).0 ≡ some page_size)
          × ((write_page disk page_id page pager).1.file
              ≡ (disk.write_at pager.file (stamp disk page) (page_id * page_size)).1)
    unfolding write_page
    written_whole page_id page pager long done =
        let bytes = stamp disk page in
        elim (Option-cases (disk.write_at pager.file bytes (page_id * page_size)).0) [
          | inl bad ↦ absurd (ground (arith, bad, done))
          | inr (n, wrote) ↦
              let all = whole pager.file bytes (page_id * page_size) n wrote in
              (wrote ∙ ap some (all ∙ length-stamp disk page long), rw (write_page, wrote) refl)
        ]

    -- The other pages that the file has stay in it.
    kept_page :
        (page_id other : ℕ) (page bytes : Bytes) (pager : Pager disk)
        → length page ≡ page_size
        → (write_page disk page_id page pager).0 ≡ ok tt
        → other ≢ page_id
        → HasPage pager other bytes
        → HasPage (write_page disk page_id page pager).1 other bytes
    kept_page page_id other page bytes pager long done ne has =
        let (wrote, file) = written_whole page_id page pager long done in
        let stamped = length-stamp disk page long in
        let size = has.1 in
        let apart : (other * page_size + length bytes ≤ page_id * page_size)
            ⊎ (page_id * page_size + length (stamp disk page) ≤ other * page_size) =
          grind arith in
        (
          ap (λ f. disk.read_at f (other * page_size)) file
              ∙ laws.read_other pager.file (stamp disk page) (page_id * page_size)
                  (other * page_size) bytes stamped (wrote ∙ ap some (sym stamped)) apart has.1
                  has.0,
          has.1,
        )

    written_page :
        (page_id : ℕ) (page : Bytes) (pager : Pager disk)
        → length page ≡ page_size
        → (write_page disk page_id page pager).0 ≡ ok tt
        → HasPage (write_page disk page_id page pager).1 page_id (stamp disk page)
    written_page page_id page pager long done =
        let (wrote, file) = written_whole page_id page pager long done in
        let stamped = length-stamp disk page long in
        (
          ap (λ f. disk.read_at f (page_id * page_size)) file
              ∙ laws.read_back pager.file (stamp disk page) (page_id * page_size) stamped
                  (wrote ∙ ap some (sym stamped)),
          stamped,
        )

    -- A page of the file or the one behind the last is written, and its id is below the last `u32`.
    pub write_page-IsSound :
        (page_id : ℕ) (page : Bytes) (pager : Pager disk)
        → IsSound pager
        → page_id < 2 ^ 32 - 1
        → page_id ≤ num_pages disk pager
        → length page ≡ page_size
        → (write_page disk page_id page pager).0 ≡ ok tt
        → IsSound (write_page disk page_id page pager).1
          × (num_pages disk (write_page disk page_id page pager).1
              ≡ max (num_pages disk pager) (page_id + 1))
    write_page-IsSound page_id page pager sound small near long done =
        let (whole', out) = write_page-IsWhole disk page_id page pager small sound.whole in
        let count : num_pages disk (write_page disk page_id page pager).1
            ≡ max (num_pages disk pager) (page_id + 1) =
          ground (arith, out, done) in
        (
          record {
            whole = whole';
            present = λ id below. elim (Bool-cases (id == page_id)) [
              | inl here ↦
                  let e : id ≡ page_id = (==_iff id page_id).0 here in
                  (
                    stamp disk page,
                    subst (λ i. HasPage (write_page disk page_id page pager).1 i (stamp disk page))
                        (sym e) (written_page page_id page pager long done),
                  )
              | inr away ↦
                  let ne : id ≢ page_id =
                    λ e. absurd (ground (arith, e, away, ==_iff id page_id)) in
                  let (bytes, has) = sound.present id (omega (arith, below, count, near, ne)) in
                  (bytes, kept_page page_id id page bytes pager long done ne has)
            ];
          },
          count,
        )

    -- Every other page of the file is read as before.
    pub read_page-kept :
        (page_id other : ℕ) (page : Bytes) (pager : Pager disk)
        → IsSound pager
        → length page ≡ page_size
        → (write_page disk page_id page pager).0 ≡ ok tt
        → other ≢ page_id
        → other < num_pages disk pager
        → read_page disk (write_page disk page_id page pager).1 other ≡ read_page disk pager other
    read_page-kept page_id other page pager sound long done ne below =
        let (bytes, has) = sound.present other below in
        read_page-write_page_ne disk laws page_id other page bytes pager long has.1 ne
          (written_whole page_id page pager long done).0 has.0
