-- ===== src/Storage/Codec.antt =====
-- The serialization library (bincode) as an interface: what the storage layer relies on.
use kssql.Common.{ℕ, ◌≡◌, ◌<◌, Option, some, ◌++◌, Bytes, length, zeros}

pub record Codec (A : Type 0) : Type 0 where
  pub serialize : A → Option Bytes
  pub deserialize : Bytes → Option A

-- A value that was serialized is read back, also with zeros behind it (`bincode::deserialize`
-- allows trailing bytes), and no encoding is empty (enums and structs with lengths are not).
pub record IsFaithful {A : Type 0} (codec : Codec A) : Type 0 where
  pub read_back :
      (a : A) (b : Bytes) (n : ℕ)
      → codec.serialize a ≡ some b
      → codec.deserialize (b ++ zeros n) ≡ some a
  pub nonempty : (a : A) (b : Bytes) → codec.serialize a ≡ some b → 0 < length b
