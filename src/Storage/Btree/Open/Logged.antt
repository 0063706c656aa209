-- ===== src/Storage/Btree/Open/Logged.antt =====
-- src/storage/btree.rs: after `open` the memory tier holds the records as the log has them last.
use kssql.Common.{
  ℕ, suc, ◌+◌, ◌*◌, ◌≤◌, ◌<◌, ◌^◌, ◌≡◌, ◌≢◌, refl, sym, ap, ◌∙◌, false, some, List, [], ◌∷◌, ◌++◌,
  Bytes, bytes_equality, bytes_eq_iff, length, All, arith,
}
use kssql.Common.Int.{ℤ}
use kssql.Common.Dict
use kssql.Common.Dict.{get-insert, length-insert}
use kssql.Common.Result.{ok}
use kssql.Common.Exec.{>>=-ok}
use kssql.Storage.Codec.{Codec}
use kssql.Storage.MemoryTier
use kssql.Storage.MemoryTier.{MemoryTier, make_room, is_over}
use kssql.Storage.Pager.{Disk, open_pager}
use kssql.Storage.Wal.Queue.{open_wal, read_all}
use kssql.Storage.Wal.Frame.{
  WalEntry, page_update, record_update, transaction_start, transaction_commit, transaction_rollback,
}
use kssql.Storage.Btree.Node.{Node}
use kssql.Storage.Btree.Open.{
  Opened, replay_page, replay_record, replay_entry, replay, replay_all, sync_pages, make_root,
  open_tree,
}
use kssql.Storage.Btree.Open.Restored.{replay_all_some}

-- There is room for so many more entries before anything is evicted.
abbrev pub HasRoom : ℕ → MemoryTier → Type 0
HasRoom n tier =
    ((length tier.cache + n) * 256 ≤ tier.max_ram_mb * 1048576) × (tier.max_ram_mb < 2 ^ 44)

-- The entry is no record of this key.
abbrev pub IsOtherKey : Bytes → WalEntry → Type 0
IsOtherKey key (record_update other bytes) = key ≢ other
IsOtherKey key _ = Unit

not_over : (n : ℕ) (tier : MemoryTier) → HasRoom n tier → is_over tier ≡ false
unfolding is_over
not_over n tier h = ground (arith, h)

insert-HasRoom :
    (n : ℕ) (now : ℤ) (key value : Bytes) (tier : MemoryTier)
    → HasRoom (suc n) tier
    → HasRoom n (MemoryTier.insert now key value tier)
      × ((MemoryTier.insert now key value tier).cache ≡ Dict.insert tier.cache key value)
unfolding MemoryTier.insert make_room
insert-HasRoom n now key value tier h =
    let fits = not_over (suc n) tier h in
    let same : make_room tier ≡ tier = rw (make_room, fits) refl in
    rw same ((omega (arith, h, length-insert tier.cache key value), h.1), refl)

module _ (disk : Disk) (nodes : Codec Node) (clock : ℕ → ℤ) where
  entry-HasRoom :
      (n : ℕ) (entry : WalEntry) (s : Opened disk nodes clock)
      → HasRoom (suc n) s.memory_tier
      → HasRoom n (replay_entry disk nodes clock entry s).1.memory_tier
  unfolding replay_page replay_record
  entry-HasRoom n (page_update page_id bytes) s h = (omega (arith, h), h.1)
  entry-HasRoom n (record_update key bytes) s h =
      (insert-HasRoom n (clock s.ticks) key bytes s.memory_tier h).0
  entry-HasRoom n (transaction_start id) s h = (omega (arith, h), h.1)
  entry-HasRoom n (transaction_commit id version time) s h = (omega (arith, h), h.1)
  entry-HasRoom n (transaction_rollback id) s h = (omega (arith, h), h.1)

  entry_other :
      (n : ℕ) (key : Bytes) (entry : WalEntry) (s : Opened disk nodes clock)
      → HasRoom (suc n) s.memory_tier
      → IsOtherKey key entry
      → Dict.get (replay_entry disk nodes clock entry s).1.memory_tier.cache key
        ≡ Dict.get s.memory_tier.cache key
  unfolding replay_page replay_record
  entry_other n key (page_update page_id bytes) s h ne = refl
  entry_other n key (record_update other bytes) s h ne =
      ap (λ m. Dict.get m key) (insert-HasRoom n (clock s.ticks) other bytes s.memory_tier h).1
      ∙ ground (arith, ne, get-insert s.memory_tier.cache other key bytes, bytes_eq_iff other key)
  entry_other n key (transaction_start id) s h ne = refl
  entry_other n key (transaction_commit id version time) s h ne = refl
  entry_other n key (transaction_rollback id) s h ne = refl

  -- Entries of other keys leave what the tier holds for a key.
  replay_others :
      (key : Bytes) (entries : List WalEntry) (s : Opened disk nodes clock)
      → HasRoom (length entries) s.memory_tier
      → All (λ e. IsOtherKey key e) entries
      → (replay disk nodes clock entries s).0 ≡ ok tt
      → Dict.get (replay disk nodes clock entries s).1.memory_tier.cache key
        ≡ Dict.get s.memory_tier.cache key
  unfolding replay
  replay_others key [] s h others done = refl
  replay_others key (entry ∷ entries) s h others done =
      let (u, fine, on) =
        >>=-ok (replay_entry disk nodes clock entry) (λ _. replay disk nodes clock entries) s tt
          done in
      let t = (replay_entry disk nodes clock entry s).1 in
      ap (λ r. Dict.get r.1.memory_tier.cache key) on
      ∙ replay_others key entries t (entry-HasRoom (length entries) entry s h) others.1
          (sym (ap (λ r. r.0) on) ∙ done)
      ∙ entry_other (length entries) key entry s h others.0

  -- The last record of a key is what the tier holds.
  replay_last_record :
      (key bytes : Bytes) (before after : List WalEntry) (s : Opened disk nodes clock)
      → HasRoom (length (before ++ record_update key bytes ∷ after)) s.memory_tier
      → All (λ e. IsOtherKey key e) after
      → (replay disk nodes clock (before ++ record_update key bytes ∷ after) s).0 ≡ ok tt
      → Dict.get
          (replay disk nodes clock
            (before ++ record_update key bytes ∷ after)
            s).1.memory_tier.cache
          key
        ≡ some bytes
  unfolding replay replay_record
  replay_last_record key bytes [] after s h others done =
      let t = (replay_record disk nodes clock key bytes s).1 in
      let put = insert-HasRoom (length after) (clock s.ticks) key bytes s.memory_tier h in
      replay_others key after t put.0 others done
      ∙ ap (λ m. Dict.get m key) put.1
      ∙ ground (arith, get-insert s.memory_tier.cache key key bytes, bytes_eq_iff key key)
  replay_last_record key bytes (entry ∷ before) after s h others done =
      let entries = before ++ record_update key bytes ∷ after in
      let (u, fine, on) =
        >>=-ok (replay_entry disk nodes clock entry) (λ _. replay disk nodes clock entries) s tt
          done in
      let t = (replay_entry disk nodes clock entry s).1 in
      ap (λ r. Dict.get r.1.memory_tier.cache key) on
      ∙ replay_last_record key bytes before after t (entry-HasRoom (length entries) entry s h)
          others (sym (ap (λ r. r.0) on) ∙ done)

  abbrev SameTier : Opened disk nodes clock → Opened disk nodes clock → Type 0
  SameTier s t = t.memory_tier ≡ s.memory_tier

  make_root-SameTier : (s : Opened disk nodes clock) → SameTier s (make_root disk nodes clock s).1
  unfolding make_root
  make_root-SameTier s = ground arith

  -- If the log has a record of a key, after it no other of that key, no more entries than the tier has room
  -- for, and opening succeeds, then the tier holds this record for the key.
  pub cache-open_tree :
      (file : disk.File) (key bytes : Bytes) (before after : List WalEntry)
      (memory_tier : MemoryTier)
      → HasRoom (length (before ++ record_update key bytes ∷ after)) memory_tier
      → All (λ e. IsOtherKey key e) after
      → (open_tree disk nodes clock file (before ++ record_update key bytes ∷ after) memory_tier).0
        ≡ ok tt
      → Dict.get
          (open_tree disk nodes clock file
            (before ++ record_update key bytes ∷ after)
            memory_tier).1.memory_tier.cache
          key
        ≡ some bytes
  unfolding open_tree
  cache-open_tree file key bytes before after memory_tier room others done =
      let entries = before ++ record_update key bytes ∷ after in
      let s : Opened disk nodes clock = record {
        pager = open_pager disk file;
        wal = (read_all (open_wal entries)).1;
        memory_tier = memory_tier;
        ticks = 0;
      } in
      let (u, replayed, on) =
        >>=-ok (replay_all disk nodes clock entries) (λ (u : Unit {0}). make_root disk nodes clock)
          s tt done in
      let all =
        replay_all_some disk nodes clock (λ n queue. queue) before after
          (record_update key bytes) in
      let (v, fine, on') =
        >>=-ok (replay disk nodes clock entries) (λ (v : Unit {0}). sync_pages disk nodes clock) s u
          (sym (ap (λ f. (f s).0) all) ∙ replayed) in
      let same : (replay_all disk nodes clock entries s).1 ≡ (replay disk nodes clock entries s).1 =
        ap (λ f. (f s).1) all ∙ ap (λ r. r.1) on' in
      ap (λ r. Dict.get r.1.memory_tier.cache key) on
      ∙ ap (λ t. Dict.get t.cache key)
          (make_root-SameTier (replay_all disk nodes clock entries s).1)
      ∙ ap (λ t. Dict.get t.memory_tier.cache key) same
      ∙ replay_last_record key bytes before after s room others fine
