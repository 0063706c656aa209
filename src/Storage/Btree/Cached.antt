-- ===== src/Storage/Btree/Cached.antt =====
-- src/storage/btree.rs: `BPlusTree` with its log and its memory tier, and `get`, which asks the tier
-- first. The root is always page 0.
use kssql.Common.{ℕ, ◌≡◌, Option, some, none, Bytes, bytes_equality, arith}
use kssql.Common.Dict
use kssql.Common.Result.{Result, ok}
use kssql.Storage.Btree.Store.{Store}
use kssql.Storage.Btree.Tree.{get_loop}
use kssql.Storage.MemoryTier
use kssql.Storage.MemoryTier.{MemoryTier}
use kssql.Storage.MemoryTier.Lookup.{get_lem}
use kssql.Storage.Wal.Queue.{Wal}

pub record BPlusTree (store : Store) : Type 0 where
  pub pages : store.State
  pub wal : Wal
  pub memory_tier : MemoryTier

module _ (store : Store) where
  unfoldable pub get : ℕ → Bytes → BPlusTree store → Result (Option Bytes) × BPlusTree store
  unfolding get_loop
  get fuel key tree =
      let (hit, tier) = MemoryTier.get key tree.memory_tier in
      let tree' = record tree { memory_tier = tier } in
      elim hit [
        | some value ↦ (ok (some value), tree')
        | none ↦ (get_loop store fuel tree.pages key 0, tree')
      ]

  -- A lookup changes nothing but the metrics; what the tier holds is what it returns.
  pub get_keeps :
      (fuel : ℕ) (key : Bytes) (tree : BPlusTree store)
      → ((get fuel key tree).1.memory_tier.cache ≡ tree.memory_tier.cache)
        × ((get fuel key tree).1.wal ≡ tree.wal)
        × ((get fuel key tree).1.pages ≡ tree.pages)
  unfolding get
  get_keeps fuel key tree = ground (arith, get_lem key tree.memory_tier)

  pub get_hit :
      (fuel : ℕ) (key value : Bytes) (tree : BPlusTree store)
      → Dict.get tree.memory_tier.cache key ≡ some value
      → (get fuel key tree).0 ≡ ok (some value)
  unfolding get
  get_hit fuel key value tree h = ground (arith, get_lem key tree.memory_tier)

  -- What the tier does not hold is looked up in the pages.
  pub get_miss :
      (fuel : ℕ) (key : Bytes) (tree : BPlusTree store)
      → Dict.get tree.memory_tier.cache key ≡ none
      → (get fuel key tree).0 ≡ get_loop store fuel tree.pages key 0
  unfolding get
  get_miss fuel key tree h = ground (arith, get_lem key tree.memory_tier)
