-- ===== src/Storage/MemoryTier/Oldest.antt =====
-- src/storage/mod.rs: which entries `evict_lru` removes.
use kssql.Common.{ℕ, ◌≡◌, true, none, some, Bytes, take, min, length, bytes_equality, arith}
use kssql.Common.Int.{ℤ, leb_ℤ}
use kssql.Common.Dict
use kssql.Storage.MemoryTier.Sort.{sort_by_key, get-sort_by_key, sort_by_key-IsSorted}
use kssql.Storage.MemoryTier.Keys.{get-remove_keys, get-take-drop, sorted-take-drop}
use kssql.Storage.MemoryTier.Lookup.{cache-evict_items}
use kssql.Storage.MemoryTier.Coherent.{IsCoherent}
use kssql.Storage.MemoryTier.{MemoryTier, evict_lru}

-- In a coherent tier, a key that an eviction removes was written no later than any key that it
-- leaves.
pub evict_lru-oldest :
    (count : ℕ) (tier : MemoryTier) (removed kept : Bytes) (s t : ℤ)
    → IsCoherent tier
    → Dict.get tier.lru removed ≡ some s
    → Dict.get (evict_lru count tier).lru removed ≡ none
    → Dict.get (evict_lru count tier).lru kept ≡ some t
    → leb_ℤ s t ≡ true
unfolding evict_lru
evict_lru-oldest count tier removed kept s t c was gone left =
    let items = sort_by_key tier.lru in
    let n = min count (length items) in
    ground (
      arith,
      (cache-evict_items (take n items) tier).1,
      get-remove_keys (take n items) tier.lru removed,
      get-remove_keys (take n items) tier.lru kept,
      get-take-drop n items removed,
      get-take-drop n items kept,
      get-sort_by_key tier.lru removed c.lru_unique,
      get-sort_by_key tier.lru kept c.lru_unique,
      sorted-take-drop n items removed kept s t (sort_by_key-IsSorted tier.lru),
    )
