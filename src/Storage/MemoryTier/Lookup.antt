-- ===== src/Storage/MemoryTier/Lookup.antt =====
-- src/storage/mod.rs: what a lookup returns after the operations of the memory tier.
use kssql.Common.{
  ℕ, ◌/◌, ◌≡◌, ◌⊎◌, inl, inr, refl, none, some, List, [], ◌∷◌, Bytes, take, min, length,
  bytes_equality, bytes_eq_iff, arith, Bool-cases,
}
use kssql.Common.Int.{ℤ}
use kssql.Common.Dict
use kssql.Common.Dict.{get-insert}
use kssql.Storage.MemoryTier.Sort.{sort_by_key}
use kssql.Storage.MemoryTier.Keys.{remove_keys, get-remove_keys}
use kssql.Storage.MemoryTier.{MemoryTier, get, insert, evict_items, evict_lru, make_room, is_over}

pub cache-evict_items :
    (items : List (Bytes × ℤ)) (tier : MemoryTier)
    → ((evict_items items tier).cache ≡ remove_keys items tier.cache)
      × ((evict_items items tier).lru ≡ remove_keys items tier.lru)
      × ((evict_items items tier).max_ram_mb ≡ tier.max_ram_mb)
unfolding evict_items
cache-evict_items [] tier = (refl, refl, refl)
cache-evict_items (x ∷ items) tier = cache-evict_items items _

-- A lookup returns what the cache holds, in both modes; it leaves the entries and their times alone,
-- and counts one hit or one miss where turbo mode is off.
pub get_lem :
    (key : Bytes) (tier : MemoryTier)
    → ((get key tier).0 ≡ Dict.get tier.cache key)
      × ((get key tier).1.cache ≡ tier.cache)
      × ((get key tier).1.lru ≡ tier.lru)
      × ((get key tier).1.max_ram_mb ≡ tier.max_ram_mb)
      × ((get key tier).1.turbo_mode ≡ tier.turbo_mode)
unfolding get
get_lem key tier = ground arith

-- What eviction leaves is as it was.
pub evict_lru-keeps :
    (count : ℕ) (tier : MemoryTier) (key : Bytes)
    → (Dict.get (evict_lru count tier).cache key ≡ Dict.get tier.cache key)
      ⊎ (Dict.get (evict_lru count tier).cache key ≡ none)
unfolding evict_lru
evict_lru-keeps count tier key =
    let items = take (min count (length (sort_by_key tier.lru))) (sort_by_key tier.lru) in
    ground (arith, (cache-evict_items items tier).0, get-remove_keys items tier.cache key)

make_room-keeps :
    (tier : MemoryTier) (key : Bytes)
    → (Dict.get (make_room tier).cache key ≡ Dict.get tier.cache key)
      ⊎ (Dict.get (make_room tier).cache key ≡ none)
unfolding make_room
make_room-keeps tier key = elim (Bool-cases (is_over tier)) [
  | inl over ↦ rw over (evict_lru-keeps (length tier.cache / 10) tier key)
  | inr fine ↦ inl (rw fine)
]

-- A key that was just inserted is found, with its value, whatever had to be evicted for it; any
-- other key is found as before, or has been evicted.
pub get-insert_lem :
    (now : ℤ) (key value other : Bytes) (tier : MemoryTier)
    → ((get key (insert now key value tier)).0 ≡ some value)
      × ((key ≡ other)
          ⊎ ((get other (insert now key value tier)).0 ≡ (get other tier).0)
          ⊎ ((get other (insert now key value tier)).0 ≡ none))
unfolding insert
get-insert_lem now key value other tier =
    let m = (make_room tier).cache in
    ground (
      arith,
      (get_lem key (insert now key value tier)).0,
      (get_lem other (insert now key value tier)).0,
      (get_lem other tier).0,
      get-insert m key key value,
      get-insert m key other value,
      bytes_eq_iff key key,
      bytes_eq_iff key other,
      make_room-keeps tier other,
    )
