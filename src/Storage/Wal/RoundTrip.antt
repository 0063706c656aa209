-- ===== src/Storage/Wal/RoundTrip.antt =====
-- src/storage/wal.rs: the recovery of a log that the writer thread wrote batch by batch.
use kssql.Common.{
  ℕ, ◌+◌, ◌-◌, ◌*◌, ◌/◌, ◌≤◌, ◌≡◌, inl, inr, refl, some, List, [], ◌∷◌, append-nil, Bytes, length,
  arith, zeros, length-zeros, subst, All, ltb, Bool-cases,
}
use kssql.Storage.Codec.{Codec, IsFaithful}
use kssql.Storage.Wal.Frame.{WalEntry, frames}
use kssql.Storage.Wal.Recover.{recover}
use kssql.Storage.Wal.Recover.Steps.{At, At-skip, Recovers, Recovers-end, Recovers-padding}
use kssql.Storage.Wal.Recover.Batches.{
  Encodes, AreClean, image, concat, padding_bounds, zeros_split, padded_size_lem, Recovers-frames,
  Recovers-batch,
}
use kssql.Storage.Wal.Writer.{padded_size, gap, pad, length-pad}

module _ (codec : Codec WalEntry) (faithful : IsFaithful codec) where
  -- Behind the last batch there is only its padding, of any length.
  Recovers-last_gap :
      (buffer : Bytes) (page n cursor : ℕ)
      → cursor ≡ page * 4096 + n
      → At buffer cursor (zeros (gap n))
      → Recovers codec buffer cursor []
  Recovers-last_gap buffer page n cursor e at = elim (Bool-cases (ltb (gap n) 4)) [
    | inl small ↦ Recovers-end codec buffer cursor (ground (arith, at.1, length-zeros (gap n)))
    | inr room ↦
        let room' : 4 ≤ gap n = ground arith in
        let len : length buffer ≡ (cursor / 4096 + 1) * 4096 =
          ground (arith, at.1, length-zeros (gap n), padding_bounds n) in
        Recovers-padding codec buffer cursor (zeros (gap n - 4)) []
          (subst (At buffer cursor) (zeros_split (gap n) room') at)
          (Recovers-end codec buffer ((cursor / 4096 + 1) * 4096) (omega (arith, len)))
  ]

  Recovers-last :
      (buffer : Bytes) (page : ℕ) (batch : List WalEntry)
      → All (Encodes codec) batch
      → At buffer (page * 4096) (pad (frames codec batch))
      → Recovers codec buffer (page * 4096) batch
  unfolding pad
  Recovers-last buffer page batch es at =
      let n = length (frames codec batch) in
      let blank = zeros (gap n) in
      rw append-nil at (
        Recovers-frames codec faithful buffer (page * 4096) (page * 4096 + n) batch blank [] es at
          refl
          (Recovers-last_gap buffer page n (page * 4096 + n) refl
            (At-skip buffer (page * 4096) (page * 4096 + n) (frames codec batch) blank at refl)))

  Recovers-image :
      (buffer : Bytes) (page : ℕ) (batches : List (List WalEntry))
      → All (All (Encodes codec)) batches
      → AreClean codec batches
      → At buffer (page * 4096) (image codec batches)
      → Recovers codec buffer (page * 4096) (concat codec batches)
  unfolding image concat
  Recovers-image buffer page [] es clean at =
      Recovers-end codec buffer (page * 4096) (omega (arith, at.1))
  Recovers-image buffer page (b ∷ []) es clean at =
      rw append-nil (Recovers-last buffer page b es.0 (rw append-nil at at))
  Recovers-image buffer page (b ∷ c ∷ rest) es clean at =
      let n = length (frames codec b) in
      let next = page * 4096 + padded_size n in
      let behind =
        At-skip buffer (page * 4096) next (pad (frames codec b)) (image codec (c ∷ rest)) at
          (omega (arith, length-pad (frames codec b))) in
      let whole : next ≡ (page + (n + 4095) / 4096) * 4096 = omega (arith, padded_size_lem n) in
      Recovers-batch codec faithful buffer page next b (image codec (c ∷ rest))
        (concat codec (c ∷ rest)) es.0 clean.0 at refl
        (rw whole (
          Recovers-image buffer (page + (n + 4095) / 4096) (c ∷ rest) es.1 clean.1
            (rw whole at behind)))

  -- The recovery of a log that holds just these batches, each padded to whole pages.
  pub recover-image :
      (batches : List (List WalEntry))
      → All (All (Encodes codec)) batches
      → AreClean codec batches
      → recover codec (image codec batches) ≡ some (concat codec batches)
  unfolding recover
  recover-image batches es clean =
      Recovers-image (image codec batches) 0 batches es clean (refl, omega arith)
        (length (image codec batches) + 1) [] (omega arith)
