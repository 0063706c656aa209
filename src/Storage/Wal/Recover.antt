-- ===== src/Storage/Wal/Recover.antt =====
-- src/storage/wal.rs: `Wal::open` reads the whole log and walks it by a cursor.
pub mod Steps
pub mod Batches
use kssql.Common.{
  ℕ, zero, suc, ◌+◌, ◌-◌, ◌*◌, ◌/◌, ◌<◌, ◌≡◌, Option, none, some, List, [], ◌∷◌, ◌++◌, Bytes,
  length, take, drop, leb, ◌==◌, if◌then◌else◌, arith, Bool-cases, inl, inr,
}
use kssql.Storage.Codec.{Codec}
use kssql.Common.Words.{from_le_bytes}
use kssql.Storage.Wal.Frame.{WalEntry}

module _ (codec : Codec WalEntry) where
  -- An entry that cannot be decoded is skipped.
  abbrev pub push_decoded : List WalEntry → Option WalEntry → List WalEntry
  push_decoded recovered none = recovered
  push_decoded recovered (some entry) = recovered ++ entry ∷ []

  -- `while cursor + 4 <= buffer.len()`; `none` means that the fuel ran out.
  unfoldable pub recover_loop : Bytes → ℕ → ℕ → List WalEntry → Option (List WalEntry)
  unfolding from_le_bytes
  recover_loop buffer zero cursor recovered = none
  recover_loop buffer (suc fuel) cursor recovered =
      let len = from_le_bytes (take 4 (drop cursor buffer)) in
      let next_page = recover_loop buffer fuel ((cursor / 4096 + 1) * 4096) recovered in
      let next_entry =
        recover_loop buffer fuel (cursor + 4 + len)
          (push_decoded recovered (codec.deserialize (take len (drop (cursor + 4) buffer)))) in
      if leb (cursor + 4) (length buffer)
      then (if len == 0
          then next_page
          else (if leb (cursor + 4 + len) (length buffer) then next_entry else some recovered))
      else some recovered

  -- The recovered entries of a log with these contents. The cursor grows by one at least in each
  -- round, so the fuel suffices (`recover_total`).
  unfoldable pub recover : Bytes → Option (List WalEntry)
  unfolding recover_loop
  recover buffer = recover_loop buffer (length buffer + 1) 0 []

  recover_loop_total :
      (buffer : Bytes) (fuel cursor : ℕ) (recovered : List WalEntry)
      → length buffer - cursor < fuel
      → (r : List WalEntry) × (recover_loop buffer fuel cursor recovered ≡ some r)
  unfolding recover_loop
  recover_loop_total buffer zero cursor recovered h = absurd (omega arith)
  recover_loop_total buffer (suc fuel) cursor recovered h =
      elim (Bool-cases (leb (cursor + 4) (length buffer))) [
        | inr stop ↦ (recovered, rw stop)
        | inl more ↦
            let len = from_le_bytes (take 4 (drop cursor buffer)) in
            elim (Bool-cases (len == 0)) [
              | inl blank ↦
                  rw (more, blank)
                    (recover_loop_total buffer fuel ((cursor / 4096 + 1) * 4096) recovered
                      (ground arith))
              | inr full ↦ elim (Bool-cases (leb (cursor + 4 + len) (length buffer))) [
                | inr cut ↦ (recovered, rw (more, full, cut))
                | inl fits ↦
                    rw (more, full, fits)
                      (recover_loop_total buffer fuel (cursor + 4 + len) _ (ground arith))
              ]
            ]
      ]

  -- The recovery of any log ends with a list of entries, whatever the log holds.
  pub recover_total : (buffer : Bytes) → (r : List WalEntry) × (recover buffer ≡ some r)
  unfolding recover
  recover_total buffer = recover_loop_total buffer (length buffer + 1) 0 [] (omega arith)
