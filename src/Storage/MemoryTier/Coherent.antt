-- ===== src/Storage/MemoryTier/Coherent.antt =====
-- src/storage/mod.rs: the cache and the write times have the same keys, each of them once.
use kssql.Common.{
  ℕ, ◌≡◌, inl, inr, refl, List, [], ◌∷◌, Bytes, take, min, length, bytes_equality, arith,
  Bool-cases, ◌/◌,
}
use kssql.Common.Int.{ℤ}
use kssql.Common.Dict
use kssql.Common.Dict.{
  Dict, IsUnique, found, get-insert, get-remove, insert-IsUnique, remove-IsUnique,
}
use kssql.Storage.MemoryTier.Sort.{sort_by_key}
use kssql.Storage.MemoryTier.Keys.{length-le_of_within, IsWithin}
use kssql.Storage.MemoryTier.Lookup.{get_lem}
use kssql.Storage.MemoryTier.{
  MemoryTier, new_tier, get, insert, remove, clear, evict_items, evict_lru, make_room, is_over,
}

pub record IsCoherent (tier : MemoryTier) : Type 0 where
  pub cache_unique : IsUnique tier.cache
  pub lru_unique : IsUnique tier.lru
  pub same : (key : Bytes) → found (Dict.get tier.cache key) ≡ found (Dict.get tier.lru key)

pub new_tier-IsCoherent : (max_ram_mb : ℕ) → IsCoherent (new_tier max_ram_mb)
unfolding new_tier
new_tier-IsCoherent max_ram_mb = record { cache_unique = tt; lru_unique = tt; same = λ key. refl }

clear-IsCoherent : (tier : MemoryTier) → IsCoherent (clear tier)
unfolding clear
clear-IsCoherent tier = record { cache_unique = tt; lru_unique = tt; same = λ key. refl }

get-IsCoherent : (key : Bytes) (tier : MemoryTier) → IsCoherent tier → IsCoherent (get key tier).1
get-IsCoherent key tier c =
    let (value, cache, lru, ram, turbo) = get_lem key tier in
    record {
      cache_unique = rw cache c.cache_unique;
      lru_unique = rw lru c.lru_unique;
      same = λ k. rw (cache, lru) (c.same k);
    }

remove-IsCoherent :
    (key : Bytes) (tier : MemoryTier) → IsCoherent tier → IsCoherent (remove key tier)
unfolding remove
remove-IsCoherent key tier c = record {
  cache_unique = remove-IsUnique tier.cache key c.cache_unique;
  lru_unique = remove-IsUnique tier.lru key c.lru_unique;
  same = λ k. ground (arith, c.same k, get-remove tier.cache key k, get-remove tier.lru key k);
}

evict_items-IsCoherent :
    (items : List (Bytes × ℤ)) (tier : MemoryTier)
    → IsCoherent tier
    → IsCoherent (evict_items items tier)
unfolding evict_items
evict_items-IsCoherent [] tier c = c
evict_items-IsCoherent (x ∷ items) tier c =
    evict_items-IsCoherent items (remove x.0 tier) (remove-IsCoherent x.0 tier c)

evict_lru-IsCoherent :
    (count : ℕ) (tier : MemoryTier) → IsCoherent tier → IsCoherent (evict_lru count tier)
unfolding evict_lru
evict_lru-IsCoherent count tier c =
    let items = sort_by_key tier.lru in
    evict_items-IsCoherent (take (min count (length items)) items) tier c

pub make_room-IsCoherent : (tier : MemoryTier) → IsCoherent tier → IsCoherent (make_room tier)
unfolding make_room
make_room-IsCoherent tier c = elim (Bool-cases (is_over tier)) [
  | inl over ↦ rw over (evict_lru-IsCoherent (length tier.cache / 10) tier c)
  | inr fine ↦ rw fine c
]

insert-IsCoherent :
    (now : ℤ) (key value : Bytes) (tier : MemoryTier)
    → IsCoherent tier
    → IsCoherent (insert now key value tier)
unfolding insert
insert-IsCoherent now key value tier c =
    let r = make_room tier in
    let c' = make_room-IsCoherent tier c in
    record {
      cache_unique = insert-IsUnique r.cache key value c'.cache_unique;
      lru_unique = insert-IsUnique r.lru key now c'.lru_unique;
      same = λ k.
          ground (arith, c'.same k, get-insert r.cache key k value, get-insert r.lru key k now);
    }

-- One call of the memory tier.
pub data Call : Type 0 where
  get_call : Bytes → Call
  insert_call : ℤ → Bytes → Bytes → Call
  remove_call : Bytes → Call
  clear_call : Call

unfoldable pub run_call : Call → MemoryTier → MemoryTier
run_call (get_call key) tier = (get key tier).1
run_call (insert_call now key value) tier = insert now key value tier
run_call (remove_call key) tier = remove key tier
run_call clear_call tier = clear tier

-- Every operation, with the eviction that `insert` may make, keeps the cache and the write times
-- coherent: no key stands twice in either, and they have the same keys.
pub run_call-IsCoherent :
    (call : Call) (tier : MemoryTier) → IsCoherent tier → IsCoherent (run_call call tier)
unfolding run_call
run_call-IsCoherent (get_call key) tier c = get-IsCoherent key tier c
run_call-IsCoherent (insert_call now key value) tier c = insert-IsCoherent now key value tier c
run_call-IsCoherent (remove_call key) tier c = remove-IsCoherent key tier c
run_call-IsCoherent clear_call tier c = clear-IsCoherent tier

-- As many entries as write times.
pub IsCoherent-length : (tier : MemoryTier) → IsCoherent tier → length tier.cache ≡ length tier.lru
IsCoherent-length tier c =
    let there : IsWithin tier.cache tier.lru = λ key h. ground (arith, c.same key) in
    let back : IsWithin tier.lru tier.cache = λ key h. ground (arith, c.same key) in
    omega (
      arith,
      length-le_of_within tier.cache tier.lru c.cache_unique c.lru_unique there,
      length-le_of_within tier.lru tier.cache c.lru_unique c.cache_unique back,
    )
