-- ===== src/Storage/Wal/Frame.antt =====
-- src/storage/wal.rs: the entries, and their framing by a four byte length in little endian.
use kssql.Common.{
  ℕ, ◌%◌, ◌^◌, ◌≡◌, refl, Option, none, some, List, [], ◌∷◌, ◌++◌, Bytes, length, append_assoc,
}
use kssql.Common.Words.{to_le_bytes}
use kssql.Common.Int.{ℤ}
use kssql.Storage.Codec.{Codec}

pub data WalEntry : Type 0 where
  page_update : ℕ → Bytes → WalEntry
  record_update : Bytes → Bytes → WalEntry
  transaction_start : ℕ → WalEntry
  transaction_commit : ℕ → ℕ → ℤ → WalEntry
  transaction_rollback : ℕ → WalEntry

module _ (codec : Codec WalEntry) where
  abbrev pub frame_bytes : Option Bytes → Bytes
  frame_bytes none = []
  frame_bytes (some encoded) = to_le_bytes (length encoded % 2 ^ 32) ++ encoded

  -- What one entry adds to the active buffer; an entry that cannot be encoded is dropped.
  unfoldable pub frame : WalEntry → Bytes
  frame entry = frame_bytes (codec.serialize entry)

  unfoldable pub frames : List WalEntry → Bytes
  frames [] = []
  frames (entry ∷ rest) = frame entry ++ frames rest

  pub frames-append : (xs ys : List WalEntry) → frames (xs ++ ys) ≡ frames xs ++ frames ys
  unfolding frames
  frames-append [] ys = refl
  frames-append (x ∷ xs) ys = rw (frames-append xs ys, append_assoc)
