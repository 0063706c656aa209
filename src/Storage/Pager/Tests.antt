-- ===== src/Storage/Pager/Tests.antt =====
-- src/storage/pager.rs: a disk that keeps pages by their offset, and the theorems on it.
use kssql.Common.{
  ℕ, ◌+◌, ◌*◌, ◌%◌, ◌^◌, ◌≡◌, ◌≢◌, ◌⊎◌, refl, ap, true, none, some, [], ◌∷◌, Bytes, zeros, length,
  length-zeros, take, drop, max, nat_equality, ==_iff, arith,
}
use kssql.Common.Dict
use kssql.Common.Dict.{Dict, get-insert}
use kssql.Common.Words.{from_le_bytes}
use kssql.Common.Result.{ok, err, write_failed, checksum_mismatch}
use kssql.Storage.Pager.{Disk, IsDisk, Pager, page_size, read_page, write_page, stamp, num_pages}
use kssql.Storage.Pager.Checksum.{read_page-write_page, read_page_sound, length-stamp}
use kssql.Storage.Pager.Length.{IsWhole, write_page-IsWhole}

abbrev pub test_disk : Disk
test_disk = record {
  File = Dict ℕ Bytes;
  size = λ file. length file * page_size;
  read_at = λ file offset. Dict.get file offset;
  write_at = λ file page offset. (some (length page), Dict.insert file offset page);
  sync_all = λ file. true;
  open_file = λ path. none;
  crc32 = λ bytes. length bytes % 2 ^ 32;
}

pub is_disk : IsDisk test_disk
is_disk = record {
  read_back = λ file page offset long done.
      ground (arith, get-insert file offset offset page, ==_iff offset offset);
  read_other = λ file page offset other bytes long done apart whole was.
      ground (arith, get-insert file offset other page, ==_iff offset other);
  crc32-lt = λ bytes. omega arith;
}

abbrev page : Bytes
page = zeros page_size

-- A file with one page, of zeros.
abbrev one_page : Pager test_disk
one_page = record { file = (0, page) ∷ []; file_length = page_size }

-- The second page is written whole.
written :
    (test_disk.write_at one_page.file (stamp test_disk page) (1 * page_size)).0 ≡ some page_size
written = ap some (length-stamp test_disk page (length-zeros page_size))

read_page-write_page_example :
    ((write_page test_disk 1 page one_page).0 ≡ ok tt)
    × (read_page test_disk (write_page test_disk 1 page one_page).1 1 ≡ ok (stamp test_disk page))
read_page-write_page_example =
    read_page-write_page test_disk is_disk 1 page one_page (length-zeros page_size) written

-- A page whose stored checksum is 1.
abbrev damaged : Pager test_disk
damaged = record { file = (0, 1 ∷ zeros 4095) ∷ []; file_length = page_size }

read_page_sound_example :
    ((read_page test_disk damaged 0 ≡ ok (1 ∷ zeros 4095))
      × ((from_le_bytes (take 4 (1 ∷ zeros 4095)) ≡ 0)
          ⊎ (test_disk.crc32 (drop 4 (1 ∷ zeros 4095)) ≡ from_le_bytes (take 4 (1 ∷ zeros 4095)))))
    ⊎ ((read_page test_disk damaged 0 ≡ err (checksum_mismatch 0))
        × (from_le_bytes (take 4 (1 ∷ zeros 4095)) ≢ 0)
        × (test_disk.crc32 (drop 4 (1 ∷ zeros 4095)) ≢ from_le_bytes (take 4 (1 ∷ zeros 4095))))
read_page_sound_example = read_page_sound test_disk damaged 0 (1 ∷ zeros 4095) refl (omega arith)

write_page-IsWhole_example :
    IsWhole test_disk (write_page test_disk 1 page one_page).1
    × ((((write_page test_disk 1 page one_page).0 ≡ ok tt)
          × (num_pages test_disk (write_page test_disk 1 page one_page).1
              ≡ max (num_pages test_disk one_page) (1 + 1)))
        ⊎ (((write_page test_disk 1 page one_page).0 ≡ err write_failed)
            × (num_pages test_disk (write_page test_disk 1 page one_page).1
                ≡ num_pages test_disk one_page)))
write_page-IsWhole_example =
    write_page-IsWhole test_disk 1 page one_page (omega arith)
      (record { aligned = omega arith; few = omega arith })
