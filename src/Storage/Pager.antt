-- ===== src/Storage/Pager.antt =====
-- src/storage/pager.rs: pages of 4096 bytes in a file, each with a checksum in its first four bytes.
-- A request and its reply pass through channels to the one thread that owns the file; a call waits
-- for its reply, so it is modelled as the request's handler.
pub mod Checksum
pub mod Length
pub mod Tests
use kssql.Common.{
  ℕ, zero, ◌+◌, ◌*◌, ◌/◌, ◌%◌, ◌^◌, ◌<◌, ◌≡◌, ◌⊎◌, ◌≤◌, Option, none, some, List, ◌++◌, Bool, true,
  false, Bytes, zeros, length, take, drop, leb, ◌==◌, if◌then◌else◌,
}
use kssql.Common.Words.{to_le_bytes, from_le_bytes}
use kssql.Common.Result.{
  Result, ok, err, short_read, read_failed, write_failed, sync_failed, open_failed,
  checksum_mismatch,
}

abbrev pub page_size : ℕ
page_size = 4096

-- The file (tokio_uring) and the checksum (crc32fast). A read returns the bytes that it filled in, a
-- write the number of bytes that it wrote; `none` is an error.
pub record Disk : Type 1 where
  pub File : Type 0
  pub size : File → ℕ
  pub read_at : File → ℕ → Option Bytes
  pub write_at : File → Bytes → ℕ → Option ℕ × File
  pub sync_all : File → Bool
  pub open_file : Bytes → Option File
  pub crc32 : Bytes → ℕ

-- A whole write is read back, and leaves what was read whole from elsewhere; the checksum has 32 bits.
pub record IsDisk (disk : Disk) : Type 0 where
  pub read_back :
      (file : disk.File) (page : Bytes) (offset : ℕ)
      → length page ≡ page_size
      → (disk.write_at file page offset).0 ≡ some (length page)
      → disk.read_at (disk.write_at file page offset).1 offset ≡ some page
  pub read_other :
      (file : disk.File) (page : Bytes) (offset other : ℕ) (bytes : Bytes)
      → length page ≡ page_size
      → (disk.write_at file page offset).0 ≡ some (length page)
      → (other + length bytes ≤ offset) ⊎ (offset + length page ≤ other)
      → length bytes ≡ page_size
      → disk.read_at file other ≡ some bytes
      → disk.read_at (disk.write_at file page offset).1 other ≡ some bytes
  pub crc32-lt : (bytes : Bytes) → disk.crc32 bytes < 2 ^ 32

module _ (disk : Disk) where
  pub record Pager : Type 0 where
    pub file : disk.File
    pub file_length : ℕ

  unfoldable pub open_pager : disk.File → Pager
  open_pager file = record { file = file; file_length = disk.size file }

  -- the handler of `PagerRequest::Read`
  unfoldable pub handle_read : Option Bytes → Result Bytes
  handle_read none = err read_failed
  handle_read (some page) =
      if length page == page_size
      then ok page
      else (if length page == 0 then ok (zeros page_size) else err short_read)

  -- the test of `read_page`; a stored checksum of zero is not tested
  unfoldable pub check_page : ℕ → Bytes → Result Bytes
  check_page page_id page =
      let stored_checksum = from_le_bytes (take 4 page) in
      if stored_checksum == 0
      then ok page
      else (if disk.crc32 (drop 4 page) == stored_checksum
          then ok page
          else err (checksum_mismatch page_id))

  abbrev pub check_read : ℕ → Result Bytes → Result Bytes
  check_read page_id (ok page) = check_page page_id page
  check_read page_id (err e) = err e

  unfoldable pub read_page : Pager → ℕ → Result Bytes
  unfolding handle_read check_page
  read_page pager page_id =
      check_read page_id (handle_read (disk.read_at pager.file (page_id * page_size)))

  -- the page with its checksum put in
  unfoldable pub stamp : Bytes → Bytes
  stamp page_data = to_le_bytes (disk.crc32 (drop 4 page_data)) ++ drop 4 page_data

  -- Any number of written bytes counts as success (`res.map(|_| ())`).
  abbrev pub written : Option ℕ → disk.File → ℕ → Pager → Result (Unit {0}) × Pager
  written none file offset pager = (err write_failed, record pager { file = file })
  written (some n) file offset pager = (
    ok tt,
    record pager {
      file = file;
      file_length = if leb pager.file_length offset then offset + page_size else pager.file_length;
    },
  )

  unfoldable pub write_page : ℕ → Bytes → Pager → Result (Unit {0}) × Pager
  unfolding stamp
  write_page page_id page_data pager =
      let offset = page_id * page_size in
      let (res, file) = disk.write_at pager.file (stamp page_data) offset in
      written res file offset pager

  -- `as u32` wraps.
  unfoldable pub num_pages : Pager → ℕ
  num_pages pager = (pager.file_length / page_size) % 2 ^ 32

  unfoldable pub sync : Pager → Result (Unit {0})
  sync pager = if disk.sync_all pager.file then ok tt else err sync_failed

  -- The reply to `PagerRequest::Reload`, for what opening the path gives.
  unfoldable pub handle_reload : Option disk.File → Pager → Result (Unit {0}) × Pager
  handle_reload (some file) pager = (ok tt, record { file = file; file_length = disk.size file })
  handle_reload none pager = (err open_failed, pager)

  unfoldable pub reload : Bytes → Pager → Result (Unit {0}) × Pager
  unfolding handle_reload
  reload path pager = handle_reload (disk.open_file path) pager
