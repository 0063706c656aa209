-- ===== src/Storage/Wal/Loss.antt =====
-- src/storage/wal.rs: a batch that leaves one to three bytes of padding cuts the log. The recovery
-- reads the next length across the page boundary.
use kssql.Common.{
  ℕ, zero, suc, ◌+◌, ◌*◌, ◌%◌, ◌^◌, ◌<◌, ◌≤◌, ◌≡◌, ap, ◌∙◌, false, some, List, [], ◌∷◌, ◌++◌,
  append_assoc, append-nil, Bytes, length, arith, length-append, zeros, drop, take, All, ◌==◌,
  leb-false, le→leb,
}
use kssql.Storage.Codec.{Codec, IsFaithful}
use kssql.Common.Words.{to_le_bytes, from_le_bytes, length-to_le_bytes}
use kssql.Storage.Wal.Frame.{WalEntry, frames}
use kssql.Storage.Wal.Recover.{recover, recover_loop}
use kssql.Storage.Wal.Recover.Steps.{At, At-skip, Recovers}
use kssql.Storage.Wal.Recover.Batches.{Encodes, image, Recovers-frames, frame_lem}
use kssql.Storage.Wal.Writer.{gap, pad}

-- The length that the recovery reads in place of `n`, behind `g` bytes of padding.
abbrev pub misread : ℕ → ℕ → ℕ
misread g n = n * 256 ^ g % 2 ^ 32

misread_lem :
    (g n : ℕ) (tail : Bytes)
    → 0 < g
    → g < 4
    → from_le_bytes (take 4 (zeros g ++ (to_le_bytes n ++ tail))) ≡ misread g n
unfolding from_le_bytes to_le_bytes
misread_lem zero n tail h k = absurd (omega arith)
misread_lem (suc zero) n tail h k = omega arith
misread_lem (suc (suc zero)) n tail h k = omega arith
misread_lem (suc (suc (suc zero))) n tail h k = omega arith
misread_lem (suc (suc (suc (suc g)))) n tail h k = absurd (omega arith)

module _ (codec : Codec WalEntry) where
  -- A length that runs over the end of the log stops the walk.
  Recovers-cut :
      (buffer : Bytes) (cursor : ℕ)
      → cursor + 4 ≤ length buffer
      → 0 < from_le_bytes (take 4 (drop cursor buffer))
      → length buffer < cursor + 4 + from_le_bytes (take 4 (drop cursor buffer))
      → Recovers codec buffer cursor []
  unfolding recover_loop
  Recovers-cut buffer cursor room some_len over zero recovered f = absurd (omega arith)
  Recovers-cut buffer cursor room some_len over (suc fuel) recovered f =
      let len = from_le_bytes (take 4 (drop cursor buffer)) in
      let full : (len == 0) ≡ false = ground arith in
      rw (
        le→leb (cursor + 4) (length buffer) room,
        full,
        leb-false (cursor + 4 + len) (length buffer) over,
        append-nil,
      )

module _ (codec : Codec WalEntry) (faithful : IsFaithful codec) where
  -- The next batch, up to its first encoded entry.
  cut :
      (entry : WalEntry) (next : List WalEntry) (rest : List (List WalEntry)) (encoded : Bytes)
      → codec.serialize entry ≡ some encoded
      → length encoded < 2 ^ 32
      → (frames codec (entry ∷ next) ++ zeros (gap (length (frames codec (entry ∷ next)))))
          ++ image codec rest
        ≡ to_le_bytes (length encoded)
          ++ (encoded
              ++ (frames codec next
                  ++ (zeros (gap (length (frames codec (entry ∷ next)))) ++ image codec rest)))
  cut entry next rest encoded ser small =
      let n = gap (length (frames codec (entry ∷ next))) in
      let head : frames codec (entry ∷ next)
          ≡ to_le_bytes (length encoded) ++ (encoded ++ frames codec next) =
        unfold frames in rw (frame_lem codec faithful entry encoded ser small, append_assoc) in
      simp append_assoc (ap (λ l. l ++ (zeros n ++ image codec rest)) head ∙ simp append_assoc)

  -- If the first batch leaves one to three bytes of padding, and the length that is misread there is
  -- not zero and runs over the end of the log, then the recovery returns the first batch alone:
  -- every entry of the later batches is lost.
  pub recover_loses :
      (batch : List WalEntry) (entry : WalEntry) (next : List WalEntry)
      (rest : List (List WalEntry)) (encoded : Bytes)
      → All (Encodes codec) batch
      → codec.serialize entry ≡ some encoded
      → length encoded < 2 ^ 32
      → 0 < gap (length (frames codec batch))
      → gap (length (frames codec batch)) < 4
      → 0 < misread (gap (length (frames codec batch))) (length encoded)
      → length (image codec (batch ∷ (entry ∷ next) ∷ rest))
        < length (frames codec batch)
          + 4
          + misread (gap (length (frames codec batch))) (length encoded)
      → recover codec (image codec (batch ∷ (entry ∷ next) ∷ rest)) ≡ some batch
  unfolding recover
  recover_loses batch entry next rest encoded es ser small pos lt some_len over =
      let buffer = image codec (batch ∷ (entry ∷ next) ∷ rest) in
      let cursor = length (frames codec batch) in
      let g = gap cursor in
      let tail =
        encoded
        ++ (frames codec next
            ++ (zeros (gap (length (frames codec (entry ∷ next)))) ++ image codec rest)) in
      let behind = zeros g ++ (to_le_bytes (length encoded) ++ tail) in
      let text : buffer ≡ frames codec batch ++ behind =
        unfold image pad in
        append_assoc (frames codec batch) (zeros g) _
        ∙ ap (λ l. frames codec batch ++ (zeros g ++ l)) (cut entry next rest encoded ser small) in
      let at : At buffer 0 (frames codec batch ++ behind) =
        (text, omega (arith, ap (length {A = ℕ}) text)) in
      let there : At buffer cursor behind =
        At-skip buffer 0 cursor (frames codec batch) behind at (omega arith) in
      let read : from_le_bytes (take 4 (drop cursor buffer)) ≡ misread g (length encoded) =
        rw there.0 (misread_lem g (length encoded) tail pos lt) in
      let room : cursor + 4 ≤ length buffer = omega (
        arith,
        there.1,
        length-append (zeros g) (to_le_bytes (length encoded) ++ tail),
        length-append (to_le_bytes (length encoded)) tail,
        length-to_le_bytes (length encoded),
      ) in
      let stop = Recovers-cut codec buffer cursor room (rw read some_len) (rw read over) in
      rw append-nil at (
        Recovers-frames codec faithful buffer 0 cursor batch behind [] es at (omega arith) stop
          (length buffer + 1) [] (omega arith))
