-- ===== src/Storage/MemoryTier/Tests.antt =====
-- src/storage/mod.rs: runs of the memory tier, and the theorems at concrete inputs.
use kssql.Common.{
  ◌≤◌, ◌≡◌, ◌⊎◌, refl, true, none, some, [], ◌∷◌, Bytes, length, bytes_equality, arith,
}
use kssql.Common.Int.{pos, leb_ℤ}
use kssql.Common.Dict
use kssql.Storage.MemoryTier.{MemoryTier, new_tier, get, insert, evict_lru, make_room}
use kssql.Storage.MemoryTier.Sort.{sort_by_key}
use kssql.Storage.MemoryTier.Lookup.{get-insert_lem}
use kssql.Storage.MemoryTier.Coherent.{IsCoherent, run_call, run_call-IsCoherent, insert_call}
use kssql.Storage.MemoryTier.Bound.{insert-bounded, most_entries}
use kssql.Storage.MemoryTier.Oldest.{evict_lru-oldest}

-- Two entries, the second written first.
abbrev two : MemoryTier
two = record {
  cache = ((1 ∷ []), (10 ∷ [])) ∷ ((2 ∷ []), (20 ∷ [])) ∷ [];
  lru = ((1 ∷ []), pos 7) ∷ ((2 ∷ []), pos 5) ∷ [];
  hits = 0;
  misses = 0;
  turbo_mode = 0;
  max_ram_mb = 1;
}

two_runs :
    run_call (insert_call (pos 5) (2 ∷ []) (20 ∷ [])) (new_tier 1)
    ≡ record two { cache = ((2 ∷ []), (20 ∷ [])) ∷ []; lru = ((2 ∷ []), pos 5) ∷ [] }
unfolding run_call insert make_room new_tier
two_runs = refl

two-IsCoherent : IsCoherent two
two-IsCoherent = record {
  cache_unique = (refl, (refl, tt));
  lru_unique = (refl, (refl, tt));
  same = λ key. ground arith;
}

get-insert_lem_example :
    ((get (3 ∷ []) (insert (pos 9) (3 ∷ []) (30 ∷ []) two)).0 ≡ some (30 ∷ []))
    × ((◌≡◌ {A = Bytes} (3 ∷ []) (1 ∷ []))
        ⊎ ((get (1 ∷ []) (insert (pos 9) (3 ∷ []) (30 ∷ []) two)).0 ≡ (get (1 ∷ []) two).0)
        ⊎ ((get (1 ∷ []) (insert (pos 9) (3 ∷ []) (30 ∷ []) two)).0 ≡ none))
get-insert_lem_example = get-insert_lem (pos 9) (3 ∷ []) (30 ∷ []) (1 ∷ []) two

run_call-IsCoherent_example : IsCoherent (run_call (insert_call (pos 9) (3 ∷ []) (30 ∷ [])) two)
run_call-IsCoherent_example =
    run_call-IsCoherent (insert_call (pos 9) (3 ∷ []) (30 ∷ [])) two two-IsCoherent

insert-bounded_example :
    length (insert (pos 9) (3 ∷ []) (30 ∷ []) two).cache ≤ most_entries two.max_ram_mb
insert-bounded_example =
    insert-bounded (pos 9) (3 ∷ []) (30 ∷ []) two two-IsCoherent (omega arith) (omega arith)

evict_one :
    (Dict.get (evict_lru 1 two).lru (2 ∷ []) ≡ none)
    × (Dict.get (evict_lru 1 two).lru (1 ∷ []) ≡ some (pos 7))
unfolding evict_lru sort_by_key
evict_one = (refl, refl)

evict_lru-oldest_example : leb_ℤ (pos 5) (pos 7) ≡ true
evict_lru-oldest_example =
    evict_lru-oldest 1 two (2 ∷ []) (1 ∷ []) (pos 5) (pos 7) two-IsCoherent refl evict_one.0
      evict_one.1
