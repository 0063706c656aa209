-- ===== src/Storage/MemoryTier.antt =====
-- src/storage/mod.rs: `MemoryTier`, the cache in front of the B+ tree, with the time of the last
-- write of each key.
pub mod Sort
pub mod Keys
pub mod Lookup
pub mod Coherent
pub mod Bound
pub mod Oldest
mod Tests
use kssql.Common.{
  ℕ, ◌+◌, ◌*◌, ◌/◌, ◌%◌, ◌^◌, Bool, not, ◌&&◌, Option, none, some, List, [], ◌∷◌, Bytes,
  bytes_equality, length, take, min, ltb, ◌==◌, if◌then◌else◌,
}
use kssql.Common.Int.{ℤ}
use kssql.Common.Dict
use kssql.Common.Dict.{Dict}
use kssql.Storage.MemoryTier.Sort.{sort_by_key}

-- The `DashMap`s in the order in which they are iterated over. `turbo_mode` is 1 or 0.
pub record MemoryTier : Type 0 where
  pub cache : Dict Bytes Bytes
  pub lru : Dict Bytes ℤ
  pub hits : ℕ
  pub misses : ℕ
  pub turbo_mode : ℕ
  pub max_ram_mb : ℕ

unfoldable pub new_tier : ℕ → MemoryTier
new_tier max_ram_mb = record {
  cache = [];
  lru = [];
  hits = 0;
  misses = 0;
  turbo_mode = 0;
  max_ram_mb = max_ram_mb;
}

-- The counters wrap (`fetch_add`).
unfoldable pub get : Bytes → MemoryTier → Option Bytes × MemoryTier
get key tier = elim (Dict.get tier.cache key) [
  | some value ↦
      if tier.turbo_mode == 1
      then (some value, tier)
      else (some value, record tier { hits = (tier.hits + 1) % 2 ^ 64 })
  | none ↦
      if tier.turbo_mode == 1
      then (none, tier)
      else (none, record tier { misses = (tier.misses + 1) % 2 ^ 64 })
]

unfoldable pub remove : Bytes → MemoryTier → MemoryTier
remove key tier = record tier { cache = Dict.remove tier.cache key; lru = Dict.remove tier.lru key }

unfoldable pub clear : MemoryTier → MemoryTier
clear tier = record tier { cache = []; lru = [] }

-- the loop of `evict_lru` over the first items
unfoldable pub evict_items : List (Bytes × ℤ) → MemoryTier → MemoryTier
unfolding remove
evict_items [] tier = tier
evict_items ((key, time) ∷ rest) tier = evict_items rest (remove key tier)

unfoldable pub evict_lru : ℕ → MemoryTier → MemoryTier
unfolding evict_items
evict_lru count tier =
    let items = sort_by_key tier.lru in evict_items (take (min count (length items)) items) tier

-- The test of `insert`: 256 bytes for each entry, in `u64`.
unfoldable pub is_over : MemoryTier → Bool
is_over tier =
    let max_bytes = tier.max_ram_mb * 1024 * 1024 % 2 ^ 64 in
    let estimated_size = length tier.cache * 256 % 2 ^ 64 in
    ltb max_bytes estimated_size && not (length tier.cache == 0)

unfoldable pub make_room : MemoryTier → MemoryTier
unfolding is_over
make_room tier = if is_over tier then evict_lru (length tier.cache / 10) tier else tier

-- `now` is the clock (`timestamp_nanos_opt`, 0 where it has none).
unfoldable pub insert : ℤ → Bytes → Bytes → MemoryTier → MemoryTier
insert now key value tier =
    let room = make_room tier in
    record room { cache = Dict.insert room.cache key value; lru = Dict.insert room.lru key now }
