-- ===== src/Storage/Btree/Open.antt =====
-- src/storage/btree.rs: `BPlusTree::open`, which puts back what the log has kept, and the drain thread of
-- src/parser/engine.rs, which moves records from the queue of the log to the tree.
pub mod Replay
pub mod Restored
pub mod Drained
pub mod Logged
pub mod Race
use kssql.Common.{
  ℕ, zero, suc, ◌+◌, ◌-◌, Bool, true, false, Option, none, some, List, [], ◌∷◌, ◌++◌, Bytes, zeros,
  length, take, ◌==◌, if◌then◌else◌,
}
use kssql.Common.Int.{ℤ}
use kssql.Common.Result.{Result, ok, err}
use kssql.Common.Exec.{Exec, pure, gets, ◌>>=◌, ◌>>◌}
use kssql.Storage.Codec.{Codec}
use kssql.Storage.MemoryTier
use kssql.Storage.MemoryTier.{MemoryTier}
use kssql.Storage.Pager
use kssql.Storage.Pager.{Disk, Pager, page_size, write_page, num_pages, open_pager}
use kssql.Storage.Wal.Frame.{
  WalEntry, page_update, record_update, transaction_start, transaction_commit, transaction_rollback,
}
use kssql.Storage.Wal.Queue.{Wal, open_wal, read_all, pop_entry}
use kssql.Storage.Btree.Node.{Node, new_leaf, to_bytes}
use kssql.Storage.Btree.Pages.{Pages, node_store}
use kssql.Storage.Btree.Tree.{insert}

-- The page that an entry has: its bytes, cut or filled up to a page.
abbrev pub page_image : Bytes → Bytes
page_image bytes = take page_size bytes ++ zeros (page_size - length bytes)

module _ (disk : Disk) (nodes : Codec Node) (clock : ℕ → ℤ) where
  -- What is opened; `ticks` counts the readings of the clock.
  pub record Opened : Type 0 where
    pub pager : Pager disk
    pub wal : Wal
    pub memory_tier : MemoryTier
    pub ticks : ℕ

  unfoldable pub replay_page : ℕ → Bytes → Exec Opened (Unit {0})
  unfolding write_page
  replay_page page_id bytes opened =
      let (r, pager) = write_page disk page_id (page_image bytes) opened.pager in
      (r, record opened { pager = pager })

  unfoldable pub replay_record : Bytes → Bytes → Exec Opened (Unit {0})
  unfolding MemoryTier.insert
  replay_record key bytes opened = (
    ok tt,
    record opened {
      memory_tier = MemoryTier.insert (clock opened.ticks) key bytes opened.memory_tier;
      ticks = opened.ticks + 1;
    },
  )

  abbrev pub replay_entry : WalEntry → Exec Opened (Unit {0})
  replay_entry (page_update page_id bytes) = replay_page page_id bytes
  replay_entry (record_update key bytes) = replay_record key bytes
  replay_entry (transaction_start id) = pure tt
  replay_entry (transaction_commit id version time) = pure tt
  replay_entry (transaction_rollback id) = pure tt

  unfoldable pub replay : List WalEntry → Exec Opened (Unit {0})
  unfolding replay_page replay_record
  replay [] = pure tt
  replay (entry ∷ entries) = replay_entry entry >> replay entries

  -- `pager.sync`
  abbrev pub sync_pages : Exec Opened (Unit {0})
  sync_pages = gets (λ opened. Pager.sync disk opened.pager)

  -- Without recovered entries nothing is replayed.
  abbrev pub replay_all : List WalEntry → Exec Opened (Unit {0})
  replay_all [] = pure tt
  replay_all (entry ∷ entries) = replay (entry ∷ entries) >> sync_pages

  -- An empty leaf is written as the root.
  abbrev pub write_root : Exec Opened (Unit {0})
  write_root = do
    bytes ← gets (λ s. to_bytes nodes new_leaf)
    (λ s. let (r, pager) = write_page disk 0 bytes s.pager in (r, record s { pager = pager }))
    sync_pages

  -- A file without pages gets its root.
  unfoldable pub make_root : Exec Opened (Unit {0})
  unfolding to_bytes write_page num_pages
  make_root opened = if num_pages disk opened.pager == 0 then write_root opened else (ok tt, opened)

  -- A file and the entries that the walk over the log recovered, with a memory tier.
  unfoldable pub open_tree : disk.File → List WalEntry → MemoryTier → Result (Unit {0}) × Opened
  unfolding replay make_root open_pager Pager.sync open_wal read_all
  open_tree file recovered memory_tier =
      let (entries, wal) = read_all (open_wal recovered) in
      (replay_all entries >> make_root)
        (record { pager = open_pager disk file; wal = wal; memory_tier = memory_tier; ticks = 0 })

-- Up to so many entries, in their order.
unfoldable pub pop_entries : ℕ → Wal → List WalEntry × Wal
unfolding pop_entry
pop_entries zero wal = ([], wal)
pop_entries (suc n) wal =
    let (popped, wal') = pop_entry wal in
    let (entries, wal'') = pop_entries n wal' in
    elim popped [ none ↦ ([], wal') | some entry ↦ (entry ∷ entries, wal'') ]

module _ (disk : Disk) (nodes : Codec Node) (others : ℕ → List WalEntry → List WalEntry) where
  -- A record is put in the tree, whatever the result; any other entry is passed over.
  unfoldable pub drain_entry : ℕ → WalEntry → Pages disk nodes others → Pages disk nodes others
  unfolding insert node_store
  drain_entry depth (record_update key bytes) pages =
      (insert (node_store disk nodes others) depth 0 key bytes pages).1
  drain_entry depth (page_update page_id bytes) pages = pages
  drain_entry depth (transaction_start id) pages = pages
  drain_entry depth (transaction_commit id version time) pages = pages
  drain_entry depth (transaction_rollback id) pages = pages

  abbrev pub drain_entries : ℕ → List WalEntry → Pages disk nodes others → Pages disk nodes others
  drain_entries depth [] pages = pages
  drain_entries depth (entry ∷ entries) pages =
      drain_entries depth entries (drain_entry depth entry pages)

  -- One turn of the drain thread; where the queue is empty, it sleeps.
  unfoldable pub drain_round : ℕ → Pages disk nodes others → Pages disk nodes others
  unfolding drain_entry pop_entries
  drain_round depth pages =
      let (entries, wal) = pop_entries 1000 pages.wal in
      drain_entries depth entries (record pages { wal = wal })
