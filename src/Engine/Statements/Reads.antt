-- ===== src/Engine/Statements/Reads.antt =====
-- src/parser/engine.rs: a scan, with its lookups in the index, changes nothing but the metrics.
use kssql.Common.{ℕ, refl, Option, none, some, Bytes, bytes_equality, inl, inr}
use kssql.Common.Exec.{gets}
use kssql.Common.Result.{Result-cases}
use kssql.Storage.Codec.{Codec}
use kssql.Storage.Btree.Node.{Record}
use kssql.Storage.MemoryTier
use kssql.Storage.MemoryTier.Lookup.{get_lem}
use kssql.Engine.State.{Engine, World, btree_get}
use kssql.Engine.Filter.{Expr}
use kssql.Engine.Rows.{Row}
use kssql.Engine.Scan.{
  read_both, target_of, follow, index_key, look_up, index_lookup, or_scan, scan_table_with_filter,
  shown_at,
}
use kssql.Engine.Untouched.{
  IsUntouched, IsUntouched-refl, IsUntouched-trans, >>=-IsUntouched, btree_get-IsUntouched,
}

module _ (world : World) where
  tier_get-IsUntouched :
      (key : Bytes) (s : Engine world.store)
      → IsUntouched world s (record s {
        btree = record s.btree { memory_tier = (MemoryTier.get key s.btree.memory_tier).1 };
      })
  tier_get-IsUntouched key s = record {
    cache = (get_lem key s.btree.memory_tier).1;
    wal = refl;
    pages = refl;
    version = refl;
    transactions = refl;
    schemas = refl;
    indices = refl;
  }

  pub read_both-IsUntouched :
      (key : Bytes) (s : Engine world.store) → IsUntouched world s (read_both world key s).1
  unfolding read_both
  read_both-IsUntouched key s =
      let s' = record s {
        btree = record s.btree { memory_tier = (MemoryTier.get key s.btree.memory_tier).1 };
      } in
      let both =
        IsUntouched-trans world s s' (btree_get world key s').1 (tier_get-IsUntouched key s)
          (btree_get-IsUntouched world key s') in
      elim (Result-cases (btree_get world key s').0) [
        | inl (below, fine) ↦ rw (read_both, fine) both
        | inr (e, bad) ↦ rw (read_both, bad) both
      ]

  module _ (records : Codec Record) where
    follow-IsUntouched :
        (table_name : Bytes) (version : ℕ) (target : Option Bytes) (s : Engine world.store)
        → IsUntouched world s (follow world records table_name version target s).1
    follow-IsUntouched table_name version none s = IsUntouched-refl world s
    follow-IsUntouched table_name version (some target) s =
        >>=-IsUntouched world (read_both world (target_of world records target))
          (λ bytes. gets (λ t. shown_at world records table_name version target bytes)) s
          (read_both-IsUntouched (target_of world records target) s)
          (λ bytes t. IsUntouched-refl world t)

    look_up-IsUntouched :
        (table_name : Bytes) (version : ℕ) (key : Option Bytes) (s : Engine world.store)
        → IsUntouched world s (look_up world records table_name version key s).1
    look_up-IsUntouched table_name version none s = IsUntouched-refl world s
    look_up-IsUntouched table_name version (some k) s =
        >>=-IsUntouched world (read_both world k)
          (λ target. follow world records table_name version target) s (read_both-IsUntouched k s)
          (λ target t. follow-IsUntouched table_name version target t)

    index_lookup-IsUntouched :
        (table_name : Bytes) (version : ℕ) (filter : Option Expr) (s : Engine world.store)
        → IsUntouched world s (index_lookup world records table_name version filter s).1
    unfolding index_lookup
    index_lookup-IsUntouched table_name version filter s =
        look_up-IsUntouched table_name version (index_key table_name filter) s

    or_scan-IsUntouched :
        (table_name : Bytes) (version : ℕ) (row : Option Row) (s : Engine world.store)
        → IsUntouched world s (or_scan world records table_name version row s).1
    or_scan-IsUntouched table_name version none s = IsUntouched-refl world s
    or_scan-IsUntouched table_name version (some row) s = IsUntouched-refl world s

    pub scan-IsUntouched :
        (table_name : Bytes) (version : ℕ) (filter : Option Expr) (s : Engine world.store)
        → IsUntouched world s (scan_table_with_filter world records table_name version filter s).1
    unfolding scan_table_with_filter
    scan-IsUntouched table_name version filter s =
        >>=-IsUntouched world (index_lookup world records table_name version filter)
          (λ row. or_scan world records table_name version row) s
          (index_lookup-IsUntouched table_name version filter s)
          (λ row t. or_scan-IsUntouched table_name version row t)
