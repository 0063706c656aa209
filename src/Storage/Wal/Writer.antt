-- ===== src/Storage/Wal/Writer.antt =====
-- src/storage/wal.rs: the writer thread pads each batch to whole pages and writes it at its offset.
use kssql.Common.{
  ℕ, ◌+◌, ◌-◌, ◌*◌, ◌/◌, ◌≡◌, Option, none, some, List, [], ◌∷◌, ◌++◌, Bytes, length, zeros, arith,
  length-append, length-zeros,
}
use kssql.Storage.Wal.Queue.{WalRequest, flush}

-- The file as the thread sees it (tokio_uring), and its contents as `read_to_end` returns them.
pub record LogFile : Type 1 where
  pub File : Type 0
  pub contents : File → Bytes
  pub write_at : File → Bytes → ℕ → Option ℕ × File

-- A write at the end of the file is whole, and adds its bytes.
pub record IsReliable (log : LogFile) : Type 0 where
  pub whole :
      (file : log.File) (bytes : Bytes)
      → (log.write_at file bytes (length (log.contents file))).0 ≡ some (length bytes)
  pub added :
      (file : log.File) (bytes : Bytes)
      → log.contents (log.write_at file bytes (length (log.contents file))).1
        ≡ log.contents file ++ bytes

-- `(size + 4095) & !4095`
unfoldable pub padded_size : ℕ → ℕ
padded_size size = (size + 4095) / 4096 * 4096

abbrev pub gap : ℕ → ℕ
gap size = padded_size size - size

unfoldable pub pad : Bytes → Bytes
pad batch = batch ++ zeros (gap (length batch))

pub length-pad : (batch : Bytes) → length (pad batch) ≡ padded_size (length batch)
unfolding pad padded_size
length-pad batch =
    let n = length batch in omega (arith, length-append batch (zeros (gap n)), length-zeros (gap n))

module _ (log : LogFile) where
  pub record Writer : Type 0 where
    pub file : log.File
    pub offset : ℕ

  abbrev pub advance : ℕ → Option ℕ → ℕ
  advance offset none = offset
  advance offset (some n) = offset + n

  -- one round of `while let Some(req) = rx.recv()`
  unfoldable pub write_batch : Writer → WalRequest → Writer
  unfolding pad
  write_batch writer (flush batch) =
      let (res, file') = log.write_at writer.file (pad batch) writer.offset in
      record { file = file'; offset = advance writer.offset res }

  unfoldable pub write_all : Writer → List WalRequest → Writer
  unfolding write_batch
  write_all writer [] = writer
  write_all writer (request ∷ rest) = write_all (write_batch writer request) rest

  -- The thread starts at the end of the file.
  abbrev pub open_writer : log.File → Writer
  open_writer file = record { file = file; offset = length (log.contents file) }
