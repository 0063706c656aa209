-- ===== src/Storage/Pager/Length.antt =====
-- src/storage/pager.rs: the length of the file, and the number of pages that it has.
use kssql.Common.{
  ℕ, ◌+◌, ◌-◌, ◌*◌, ◌%◌, ◌^◌, ◌<◌, ◌≡◌, ◌⊎◌, refl, max, Bytes, arith, Option-cases, inl, inr,
}
use kssql.Common.Result.{ok, err, write_failed}
use kssql.Storage.Pager.{Disk, Pager, page_size, stamp, write_page, num_pages}

module _ (disk : Disk) where
  -- The length counts whole pages, few enough for a `u32`.
  pub record IsWhole (pager : Pager disk) : Type 0 where
    pub aligned : pager.file_length % page_size ≡ 0
    pub few : pager.file_length < 2 ^ 44

  -- Writing a page with an id below the last `u32`, to a pager whose length is a whole number of pages, fewer
  -- than 2 ^ 32, keeps it so. A write that succeeds makes the number of pages the larger of what it was and
  -- the page's id plus one; a write that fails leaves it.
  pub write_page-IsWhole :
      (page_id : ℕ) (page : Bytes) (pager : Pager disk)
      → page_id < 2 ^ 32 - 1
      → IsWhole pager
      → IsWhole (write_page disk page_id page pager).1
        × ((((write_page disk page_id page pager).0 ≡ ok tt)
              × (num_pages disk (write_page disk page_id page pager).1
                  ≡ max (num_pages disk pager) (page_id + 1)))
            ⊎ (((write_page disk page_id page pager).0 ≡ err write_failed)
                × (num_pages disk (write_page disk page_id page pager).1 ≡ num_pages disk pager)))
  unfolding write_page num_pages
  write_page-IsWhole page_id page pager h w =
      elim (Option-cases (disk.write_at pager.file (stamp disk page) (page_id * page_size)).0) [
        | inl failed ↦ rw failed (record { aligned = w.aligned; few = w.few }, inr (refl, refl))
        | inr (n, done) ↦ rw done (ground arith)
      ]
