-- ===== src/Storage/Wal/Recover/Steps.antt =====
-- src/storage/wal.rs: what the walk over the log does at a frame, at padding and at the end.
use kssql.Common.{
  ℕ, zero, suc, ◌+◌, ◌-◌, ◌*◌, ◌/◌, ◌^◌, ◌<◌, ◌≤◌, ◌≡◌, refl, some, List, [], ◌∷◌, ◌++◌,
  append_assoc, append-nil, Bytes, length, take, drop, ◌==◌, false, arith, leb-false, le→leb,
  take-append, drop-skip, length-append, zeros,
}
use kssql.Storage.Codec.{Codec}
use kssql.Common.Words.{to_le_bytes, from_le_bytes-to_le_bytes, length-to_le_bytes}
use kssql.Storage.Wal.Frame.{WalEntry}
use kssql.Storage.Wal.Recover.{recover_loop}

-- What stands at the cursor.
abbrev pub At : Bytes → ℕ → Bytes → Type 0
At buffer cursor rest = (drop cursor buffer ≡ rest) × (length buffer ≡ cursor + length rest)

pub At-skip :
    (buffer : Bytes) (cursor next : ℕ) (xs ys : Bytes)
    → At buffer cursor (xs ++ ys)
    → next ≡ cursor + length xs
    → At buffer next ys
At-skip buffer cursor next xs ys h e =
    rw e
      (drop-skip cursor (length xs) buffer xs ys h.0 refl, omega (arith, h.1, length-append xs ys))

module _ (codec : Codec WalEntry) where
  -- From the cursor on the walk recovers just these entries, on any fuel that is enough.
  abbrev pub Recovers : Bytes → ℕ → List WalEntry → Type 0
  Recovers buffer cursor entries =
      (fuel : ℕ) (recovered : List WalEntry)
      → length buffer - cursor < fuel
      → recover_loop codec buffer fuel cursor recovered ≡ some (recovered ++ entries)

  pub Recovers-end :
      (buffer : Bytes) (cursor : ℕ) → length buffer < cursor + 4 → Recovers buffer cursor []
  unfolding recover_loop
  Recovers-end buffer cursor h zero recovered f = absurd (omega arith)
  Recovers-end buffer cursor h (suc fuel) recovered f =
      rw (leb-false (cursor + 4) (length buffer) h, append-nil)

  -- A zero length: on to the next page.
  pub Recovers-padding :
      (buffer : Bytes) (cursor : ℕ) (rest : Bytes) (entries : List WalEntry)
      → At buffer cursor (zeros 4 ++ rest)
      → Recovers buffer ((cursor / 4096 + 1) * 4096) entries
      → Recovers buffer cursor entries
  unfolding recover_loop
  Recovers-padding buffer cursor rest entries h next zero recovered f = absurd (omega arith)
  Recovers-padding buffer cursor rest entries h next (suc fuel) recovered f =
      rw (le→leb (cursor + 4) (length buffer) (omega (arith, h.1)), h.0)
        (next fuel recovered (omega (arith, h.1)))

  -- A frame: its entry, and on behind it.
  pub Recovers-frame :
      (buffer : Bytes) (cursor : ℕ) (encoded rest : Bytes) (entry : WalEntry)
      (entries : List WalEntry)
      → At buffer cursor (to_le_bytes (length encoded) ++ (encoded ++ rest))
      → 0 < length encoded
      → length encoded < 2 ^ 32
      → codec.deserialize encoded ≡ some entry
      → Recovers buffer (cursor + 4 + length encoded) entries
      → Recovers buffer cursor (entry ∷ entries)
  unfolding recover_loop
  Recovers-frame buffer cursor encoded rest entry entries h pos small back next zero recovered f =
      absurd (omega arith)
  Recovers-frame buffer cursor encoded rest entry entries h pos small back next (suc fuel) recovered
        f =
      let n = length encoded in
      let four = length-to_le_bytes n in
      let body =
        At-skip buffer cursor (cursor + 4) (to_le_bytes n) (encoded ++ rest) h
          (omega (arith, four)) in
      let here : take 4 (drop cursor buffer) ≡ to_le_bytes n =
        rw h.0 (take-append 4 (to_le_bytes n) (encoded ++ rest) four) in
      let text : take n (drop (cursor + 4) buffer) ≡ encoded =
        rw body.0 (take-append n encoded rest refl) in
      let within : cursor + 4 + n ≤ length buffer =
        omega (arith, body.1, length-append encoded rest) in
      let full : (n == 0) ≡ false = ground arith in
      rw
        (
          le→leb (cursor + 4) (length buffer) (omega arith),
          here,
          from_le_bytes-to_le_bytes n small,
          full,
          le→leb (cursor + 4 + n) (length buffer) within,
          text,
          back,
        )
        (rw append_assoc at (next fuel (recovered ++ entry ∷ []) (omega arith)))
