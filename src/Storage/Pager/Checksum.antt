-- ===== src/Storage/Pager/Checksum.antt =====
-- src/storage/pager.rs: pages are read back as they were written, and damage is reported.
use kssql.Common.{
  ℕ, ◌+◌, ◌*◌, ◌≤◌, ◌≡◌, ◌≢◌, ◌⊎◌, ap, sym, ◌∙◌, some, Bytes, length, take, drop, arith,
  length-append, length-drop, take-append, drop-append,
}
use kssql.Common.Words.{to_le_bytes, from_le_bytes, from_le_bytes-to_le_bytes, length-to_le_bytes}
use kssql.Common.Result.{ok, err, checksum_mismatch}
use kssql.Storage.Pager.{
  Disk, IsDisk, Pager, page_size, handle_read, check_page, read_page, stamp, write_page,
}

module _ (disk : Disk) where
  pub length-stamp : (page : Bytes) → length page ≡ page_size → length (stamp disk page) ≡ page_size
  unfolding stamp
  length-stamp page h =
      let sum = to_le_bytes (disk.crc32 (drop 4 page)) in
      omega (
        arith,
        length-append sum (drop 4 page),
        length-to_le_bytes (disk.crc32 (drop 4 page)),
        length-drop 4 page,
      )

  pub drop-stamp : (page : Bytes) → drop 4 (stamp disk page) ≡ drop 4 page
  unfolding stamp
  drop-stamp page =
      drop-append 4 (to_le_bytes (disk.crc32 (drop 4 page))) (drop 4 page)
        (length-to_le_bytes (disk.crc32 (drop 4 page)))

  pub check_page-stamp :
      IsDisk disk
      → (page_id : ℕ) (page : Bytes)
      → check_page disk page_id (stamp disk page) ≡ ok (stamp disk page)
  unfolding check_page
  check_page-stamp laws page_id page =
      let sum = disk.crc32 (drop 4 page) in
      let head : from_le_bytes (take 4 (stamp disk page)) ≡ sum =
        unfold stamp in
        rw (take-append 4 (to_le_bytes sum) (drop 4 page) (length-to_le_bytes sum))
          (from_le_bytes-to_le_bytes sum (laws.crc32-lt (drop 4 page))) in
      ground (arith, head, drop-stamp page)

  whole_read : (bytes : Bytes) → length bytes ≡ page_size → handle_read disk (some bytes) ≡ ok bytes
  unfolding handle_read
  whole_read bytes h = ground arith

  pub read_whole :
      (pager : Pager disk) (page_id : ℕ) (bytes : Bytes)
      → disk.read_at pager.file (page_id * page_size) ≡ some bytes
      → length bytes ≡ page_size
      → read_page disk pager page_id ≡ check_page disk page_id bytes
  unfolding read_page
  read_whole pager page_id bytes was h = rw (was, whole_read bytes h)

  write_done :
      (page_id : ℕ) (page : Bytes) (pager : Pager disk) (n : ℕ)
      → (disk.write_at pager.file (stamp disk page) (page_id * page_size)).0 ≡ some n
      → ((write_page disk page_id page pager).0 ≡ ok tt)
        × ((write_page disk page_id page pager).1.file
            ≡ (disk.write_at pager.file (stamp disk page) (page_id * page_size)).1)
  unfolding write_page
  write_done page_id page pager n done = ground arith

  -- On a disk that reads back what was written whole, a page of 4096 bytes that was written whole is read
  -- back with its checksum put in, whatever its first four bytes were.
  pub read_page-write_page :
      (laws : IsDisk disk) (page_id : ℕ) (page : Bytes) (pager : Pager disk)
      → length page ≡ page_size
      → (disk.write_at pager.file (stamp disk page) (page_id * page_size)).0 ≡ some page_size
      → ((write_page disk page_id page pager).0 ≡ ok tt)
        × (read_page disk (write_page disk page_id page pager).1 page_id ≡ ok (stamp disk page))
  read_page-write_page laws page_id page pager h done =
      let (fine, file) = write_done page_id page pager page_size done in
      let long = length-stamp page h in
      let back =
        laws.read_back pager.file (stamp disk page) (page_id * page_size) long
          (done ∙ ap some (sym long)) in
      (
        fine,
        read_whole (write_page disk page_id page pager).1 page_id (stamp disk page)
              (ap (λ f. disk.read_at f (page_id * page_size)) file ∙ back) long
            ∙ check_page-stamp laws page_id page,
      )

  -- On a disk that keeps what could be read whole elsewhere, writing a page of 4096 bytes whole leaves every
  -- other page that could be read whole as it was.
  pub read_page-write_page_ne :
      (laws : IsDisk disk) (page_id other : ℕ) (page bytes : Bytes) (pager : Pager disk)
      → length page ≡ page_size
      → length bytes ≡ page_size
      → other ≢ page_id
      → (disk.write_at pager.file (stamp disk page) (page_id * page_size)).0 ≡ some page_size
      → disk.read_at pager.file (other * page_size) ≡ some bytes
      → read_page disk (write_page disk page_id page pager).1 other ≡ read_page disk pager other
  read_page-write_page_ne laws page_id other page bytes pager h k ne done was =
      let (fine, file) = write_done page_id page pager page_size done in
      let long = length-stamp page h in
      let apart : (other * page_size + length bytes ≤ page_id * page_size)
          ⊎ (page_id * page_size + length (stamp disk page) ≤ other * page_size) =
        grind arith in
      let still =
        laws.read_other pager.file (stamp disk page) (page_id * page_size) (other * page_size) bytes
          long (done ∙ ap some (sym long)) apart k was in
      read_whole (write_page disk page_id page pager).1 other bytes
        (ap (λ f. disk.read_at f (other * page_size)) file ∙ still) k
      ∙ sym (read_whole pager other bytes was k)

  -- Where the file has 4096 bytes for a page, `read_page` returns them if they carry no checksum or the right
  -- one, and refuses them otherwise.
  pub read_page_sound :
      (pager : Pager disk) (page_id : ℕ) (bytes : Bytes)
      → disk.read_at pager.file (page_id * page_size) ≡ some bytes
      → length bytes ≡ page_size
      → ((read_page disk pager page_id ≡ ok bytes)
          × ((from_le_bytes (take 4 bytes) ≡ 0)
              ⊎ (disk.crc32 (drop 4 bytes) ≡ from_le_bytes (take 4 bytes))))
        ⊎ ((read_page disk pager page_id ≡ err (checksum_mismatch page_id))
            × (from_le_bytes (take 4 bytes) ≢ 0)
            × (disk.crc32 (drop 4 bytes) ≢ from_le_bytes (take 4 bytes)))
  unfolding check_page
  read_page_sound pager page_id bytes was h = ground (arith, read_whole pager page_id bytes was h)
