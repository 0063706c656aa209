-- ===== src/Common/Result.antt =====
-- `anyhow::Result`: each error message of the program is a constructor.
use Prim.Native.Nat.{ℕ}
use mathlib.Core.List.{List}
use mathlib.Core.Path.{◌≡◌, refl}
use mathlib.Core.Logic.{◌⊎◌, inl, inr}

pub data Error : Type 0 where
  queue_saturated : Error
  short_read read_failed write_failed sync_failed open_failed : Error
  checksum_mismatch : ℕ → Error
  node_too_large encode_failed decode_failed : Error
  transaction_conflict no_transaction : Error
  record_not_found table_not_found : Error
  -- the one with the table's name
  named_table_not_found : List ℕ → Error
  unsupported_source unsupported_query unsupported_table unsupported_statement : Error
  unsupported_join_table unsupported_target source_missing : Error
  -- what a file, sqlparser or wasmi reports, with its message
  external_error : List ℕ → Error
  -- an index out of bounds: the source panics
  panic : Error
  -- the fuel of a loop ran out: the source runs on
  out_of_fuel : Error

pub data Result {ℓ} (A : Type ℓ) : Type ℓ where
  ok : A → Result A
  err : Error → Result A

pub Result-cases {ℓ} :
    {A : Type ℓ} (r : Result A) → ((a : A) × (r ≡ ok a)) ⊎ ((e : Error) × (r ≡ err e))
Result-cases (ok a) = inl (a, refl)
Result-cases (err e) = inr (e, refl)
