-- ===== src/Storage/Wal/Recover/Batches.antt =====
-- src/storage/wal.rs: what the recovery reads from batches that the writer thread has padded.
use kssql.Common.{
  ℕ, ◌+◌, ◌-◌, ◌*◌, ◌/◌, ◌%◌, ◌^◌, ◌<◌, ◌≤◌, ◌≡◌, ◌⊎◌, inl, inr, refl, ap, ◌∙◌, subst, some, List,
  [], ◌∷◌, ◌++◌, append_assoc, append-nil, Bytes, length, arith, length-append, zeros,
  replicate-add, All,
}
use kssql.Storage.Codec.{Codec, IsFaithful}
use kssql.Common.Words.{to_le_bytes, length-to_le_bytes}
use kssql.Storage.Wal.Frame.{WalEntry, frame, frames}
use kssql.Storage.Wal.Recover.Steps.{At, At-skip, Recovers, Recovers-padding, Recovers-frame}
use kssql.Storage.Wal.Writer.{padded_size, gap, pad}

module _ (codec : Codec WalEntry) where
  -- The entry has an encoding whose length fits the four bytes of the frame.
  abbrev pub Encodes : WalEntry → Type 0
  Encodes entry =
      (encoded : Bytes) × (codec.serialize entry ≡ some encoded) × (length encoded < 2 ^ 32)

  -- No padding, or room for a whole zero length in it.
  abbrev pub IsClean : List WalEntry → Type 0
  IsClean batch = (gap (length (frames codec batch)) ≡ 0) ⊎ (4 ≤ gap (length (frames codec batch)))

  -- Every batch but the last is clean.
  abbrev pub AreClean : List (List WalEntry) → Type 0
  AreClean [] = Unit
  AreClean (b ∷ []) = Unit
  AreClean (b ∷ c ∷ rest) = IsClean b × AreClean (c ∷ rest)

  -- The log after these batches.
  unfoldable pub image : List (List WalEntry) → Bytes
  image [] = []
  image (b ∷ rest) = pad (frames codec b) ++ image rest

  unfoldable pub concat : List (List WalEntry) → List WalEntry
  concat [] = []
  concat (b ∷ rest) = b ++ concat rest

pub padding_bounds : (n : ℕ) → (gap n < 4096) × (n + gap n ≡ (n + 4095) / 4096 * 4096)
unfolding padded_size
padding_bounds n = omega arith

-- the zero length at the head of enough padding
pub zeros_split : (g : ℕ) → 4 ≤ g → zeros g ≡ zeros 4 ++ zeros (g - 4)
zeros_split g h =
    let split : g ≡ 4 + (g - 4) = omega arith in ap zeros split ∙ replicate-add 4 (g - 4) 0

pub padded_size_lem : (n : ℕ) → padded_size n ≡ (n + 4095) / 4096 * 4096
unfolding padded_size
padded_size_lem n = refl

module _ (codec : Codec WalEntry) (faithful : IsFaithful codec) where
  pub frame_lem :
      (x : WalEntry) (encoded : Bytes)
      → codec.serialize x ≡ some encoded
      → length encoded < 2 ^ 32
      → frame codec x ≡ to_le_bytes (length encoded) ++ encoded
  unfolding frame
  frame_lem x encoded ser small =
      let whole : length encoded % 2 ^ 32 ≡ length encoded = omega arith in rw (ser, whole)

  length-frame :
      (x : WalEntry) (encoded : Bytes)
      → codec.serialize x ≡ some encoded
      → length encoded < 2 ^ 32
      → length (frame codec x) ≡ 4 + length encoded
  length-frame x encoded ser small = rw (frame_lem x encoded ser small) (
      omega (
        arith,
        length-append (to_le_bytes (length encoded)) encoded,
        length-to_le_bytes (length encoded),
      ))

  pub Recovers-frames :
      (buffer : Bytes) (cursor next : ℕ) (batch : List WalEntry) (rest : Bytes)
      (entries : List WalEntry)
      → All (Encodes codec) batch
      → At buffer cursor (frames codec batch ++ rest)
      → next ≡ cursor + length (frames codec batch)
      → Recovers codec buffer next entries
      → Recovers codec buffer cursor (batch ++ entries)
  unfolding frames
  Recovers-frames buffer cursor next [] rest entries es at e more =
      let same : next ≡ cursor = omega arith in rw same at more
  Recovers-frames buffer cursor next (x ∷ batch) rest entries ((encoded, ser, small), es) at e
        more =
      let n = length encoded in
      let tail = frames codec batch ++ rest in
      let head = frame_lem x encoded ser small in
      let len = length-frame x encoded ser small in
      let here : At buffer cursor (frame codec x ++ tail) = rw append_assoc at at in
      let here' : At buffer cursor (to_le_bytes n ++ (encoded ++ tail)) =
        rw (head, append_assoc) at here in
      let behind : At buffer (cursor + 4 + n) tail =
        At-skip buffer cursor (cursor + 4 + n) (frame codec x) tail here (omega (arith, len)) in
      Recovers-frame codec buffer cursor encoded tail x (batch ++ entries) here'
        (faithful.nonempty x encoded ser) small
        (rw append-nil at (faithful.read_back x encoded 0 ser))
        (Recovers-frames buffer (cursor + 4 + n) next batch rest entries es behind
          (omega (arith, e, length-append (frame codec x) (frames codec batch))) more)

  -- The padding behind a batch of `n` bytes at a page boundary.
  Recovers-gap :
      (buffer : Bytes) (page n cursor next : ℕ) (rest : Bytes) (entries : List WalEntry)
      → (gap n ≡ 0) ⊎ (4 ≤ gap n)
      → cursor ≡ page * 4096 + n
      → next ≡ page * 4096 + padded_size n
      → At buffer cursor (zeros (gap n) ++ rest)
      → Recovers codec buffer next entries
      → Recovers codec buffer cursor entries
  Recovers-gap buffer page n cursor next rest entries (inl none) here e at more =
      let same : cursor ≡ next = omega (arith, padding_bounds n, padded_size_lem n) in rw same more
  Recovers-gap buffer page n cursor next rest entries (inr room) here e at more =
      let next_page : (cursor / 4096 + 1) * 4096 ≡ next =
        omega (arith, padding_bounds n, padded_size_lem n) in
      Recovers-padding codec buffer cursor (zeros (gap n - 4) ++ rest) entries
        (subst (λ z. At buffer cursor (z ++ rest)) (zeros_split (gap n) room) at)
        (rw next_page more)

  -- A padded batch at a page boundary, and what is recovered behind it.
  pub Recovers-batch :
      (buffer : Bytes) (page next : ℕ) (batch : List WalEntry) (rest : Bytes)
      (entries : List WalEntry)
      → All (Encodes codec) batch
      → IsClean codec batch
      → At buffer (page * 4096) (pad (frames codec batch) ++ rest)
      → next ≡ page * 4096 + padded_size (length (frames codec batch))
      → Recovers codec buffer next entries
      → Recovers codec buffer (page * 4096) (batch ++ entries)
  unfolding pad
  Recovers-batch buffer page next batch rest entries es clean at e more =
      let n = length (frames codec batch) in
      let blank = zeros (gap n) ++ rest in
      let here : At buffer (page * 4096) (frames codec batch ++ blank) = rw append_assoc at at in
      let behind : At buffer (page * 4096 + n) blank =
        At-skip buffer (page * 4096) (page * 4096 + n) (frames codec batch) blank here refl in
      Recovers-frames buffer (page * 4096) (page * 4096 + n) batch blank entries es here refl
        (Recovers-gap buffer page n (page * 4096 + n) next rest entries clean refl e behind more)
