-- ===== src/Storage/MemoryTier/Bound.antt =====
-- src/storage/mod.rs: how far the memory tier grows.
use kssql.Common.{
  ℕ, ◌+◌, ◌-◌, ◌*◌, ◌/◌, ◌^◌, ◌≤◌, ◌<◌, ◌≡◌, Bytes, take, min, max, length, bytes_equality, arith,
  Bool-cases, inl, inr, length-take, ltb,
}
use kssql.Common.Int.{ℤ}
use kssql.Common.Dict.{length-insert}
use kssql.Storage.MemoryTier.Sort.{
  sort_by_key, get-sort_by_key, sort_by_key-IsUnique, length-sort_by_key,
}
use kssql.Storage.MemoryTier.Keys.{length-remove_keys, IsWithin, get-take-drop, take-IsUnique}
use kssql.Storage.MemoryTier.Lookup.{cache-evict_items}
use kssql.Storage.MemoryTier.Coherent.{IsCoherent, IsCoherent-length}
use kssql.Storage.MemoryTier.{MemoryTier, insert, evict_lru, make_room, is_over}

-- The items that an eviction removes are entries of the cache.
IsWithin-cache :
    (n : ℕ) (tier : MemoryTier)
    → IsCoherent tier
    → IsWithin (take n (sort_by_key tier.lru)) tier.cache
IsWithin-cache n tier c key h = ground (
  arith,
  c.same key,
  get-take-drop n (sort_by_key tier.lru) key,
  get-sort_by_key tier.lru key c.lru_unique,
)

-- `evict_lru` removes as many entries as it is asked to, or all of them.
pub length-evict_lru :
    (count : ℕ) (tier : MemoryTier)
    → IsCoherent tier
    → length (evict_lru count tier).cache ≡ length tier.cache - count
unfolding evict_lru
length-evict_lru count tier c =
    let items = sort_by_key tier.lru in
    let n = min count (length items) in
    let gone =
      length-remove_keys (take n items) tier.cache
        (take-IsUnique n items (sort_by_key-IsUnique tier.lru c.lru_unique)) c.cache_unique
        (IsWithin-cache n tier c) in
    rw ((cache-evict_items (take n items) tier).0) (
      omega
        (arith, gone, length-take n items, length-sort_by_key tier.lru, IsCoherent-length tier c))

-- The most entries that the tier holds under a limit in MiB, at 256 bytes an entry. Below ten
-- entries a tenth of them is none, so nothing is evicted.
abbrev pub most_entries : ℕ → ℕ
most_entries max_ram_mb = max (max_ram_mb * 4096 + 1) 10

is_over_lem :
    (tier : MemoryTier)
    → tier.max_ram_mb < 2 ^ 40
    → length tier.cache < 2 ^ 54
    → is_over tier ≡ ltb (tier.max_ram_mb * 4096) (length tier.cache)
unfolding is_over
is_over_lem tier h k = ground arith

-- From a coherent tier within the limit, and a limit below 2 ^ 40 MB, an insertion leaves the tier
-- within the limit, which is 4096 entries for each MB and one more, and at least ten.
pub insert-bounded :
    (now : ℤ) (key value : Bytes) (tier : MemoryTier)
    → IsCoherent tier
    → tier.max_ram_mb < 2 ^ 40
    → length tier.cache ≤ most_entries tier.max_ram_mb
    → length (insert now key value tier).cache ≤ most_entries tier.max_ram_mb
unfolding insert make_room
insert-bounded now key value tier c h b =
    let over = is_over_lem tier h (omega arith) in
    let fewer = length-evict_lru (length tier.cache / 10) tier c in
    elim (Bool-cases (is_over tier)) [
      | inl yes_over ↦ rw yes_over (
          ground (
            arith,
            over,
            fewer,
            length-insert (evict_lru (length tier.cache / 10) tier).cache key value,
          ))
      | inr fine ↦ rw fine (ground (arith, over, length-insert tier.cache key value))
    ]
