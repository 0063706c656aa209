-- ===== src/Storage/Btree/Open/Race.antt =====
-- src/storage/pager.rs and src/storage/btree.rs: `Pager::open` returns before its thread has stored the
-- length of the file, and `BPlusTree::open` counts the pages. With entries in the log, a reply of the thread is
-- awaited in between; without any, the two steps come in either order.
use kssql.Common.{
  ℕ, ◌≡◌, ◌≢◌, refl, sym, ap, ◌∙◌, false, List, [], Bytes, ◌==◌, ==_iff, if◌then◌else◌, arith,
}
use kssql.Common.Int.{ℤ}
use kssql.Common.Result.{Result, ok}
use kssql.Common.Exec.{Exec, gets, ◌>>=◌, >>=-ok}
use kssql.Storage.Codec.{Codec, IsFaithful}
use kssql.Storage.MemoryTier.{MemoryTier}
use kssql.Storage.Pager.{Disk, IsDisk, Pager, num_pages, open_pager, write_page}
use kssql.Storage.Wal.Frame.{WalEntry}
use kssql.Storage.Wal.Queue.{open_wal, read_all}
use kssql.Storage.Btree.Node.{Node, new_leaf, to_bytes}
use kssql.Storage.Btree.Pages.{read_node, put_page}
use kssql.Storage.Btree.Pages.SaveNode.{WritesWhole, read_node-put_page}
use kssql.Storage.Btree.Open.{Opened, write_root, make_root, sync_pages, open_tree}
use kssql.Storage.Btree.Open.Restored.{pages_of}

-- Which step is first: that of the thread, which stores the length, or the count of `open`.
pub data Order : Type 0 where
  thread_first open_first : Order

module _ (disk : Disk) (nodes : Codec Node) (clock : ℕ → ℤ) where
  -- Until the thread stores it, the length is 0.
  abbrev pub counted : Order → Pager disk → ℕ
  counted thread_first pager = num_pages disk pager
  counted open_first pager = 0

  -- The state when the pages are counted, but for the length.
  abbrev pub just_opened : disk.File → MemoryTier → Opened disk nodes clock
  just_opened file memory_tier = record {
    pager = open_pager disk file;
    wal = (read_all (open_wal [])).1;
    memory_tier = memory_tier;
    ticks = 0;
  }

  -- `open` with a log without entries. The write of the root waits for its reply, and by then the thread
  -- has stored the length.
  unfoldable pub open_without_log :
      Order → disk.File → MemoryTier → Result (Unit {0}) × Opened disk nodes clock
  open_without_log order file memory_tier =
      let opened = just_opened file memory_tier in
      if counted order opened.pager == 0
      then write_root disk nodes clock opened
      else (ok tt, opened)

  -- The order in which the thread is first is the one of `open_tree`.
  open_without_log-thread_first :
      (file : disk.File) (memory_tier : MemoryTier)
      → open_without_log thread_first file memory_tier
        ≡ open_tree disk nodes clock file [] memory_tier
  unfolding open_without_log open_tree make_root
  open_without_log-thread_first file memory_tier = refl

  module _ (others : ℕ → List WalEntry → List WalEntry) (laws : IsDisk disk)
      (whole : WritesWhole disk) (faithful : IsFaithful nodes) where
    write_root_lem :
        (s : Opened disk nodes clock)
        → (write_root disk nodes clock s).0 ≡ ok tt
        → read_node disk nodes others
            (pages_of disk nodes clock others (write_root disk nodes clock s).1)
            0
          ≡ ok new_leaf
    unfolding put_page
    write_root_lem s done =
        let put : Bytes → Exec (Opened disk nodes clock) (Unit {0}) = λ bytes t.
          let (r, pager) = write_page disk 0 bytes t.pager in (r, record t { pager = pager }) in
        let (bytes, made, on) =
          >>=-ok (gets (λ t. to_bytes nodes new_leaf))
            (λ bytes. put bytes >>= λ _. sync_pages disk nodes clock) s tt done in
        let (u, wrote, on') =
          >>=-ok (put bytes) (λ _. sync_pages disk nodes clock) s tt
            (sym (ap (λ r. r.0) on) ∙ done) in
        ap (λ r. read_node disk nodes others (pages_of disk nodes clock others r.1) 0) (on ∙ on')
        ∙ read_node-put_page disk nodes others laws whole faithful 0 new_leaf bytes
            (pages_of disk nodes clock others s) made wrote

    -- On a disk that reads back what was written, with whole writes: if the log has no entries and the file
    -- has pages, then opening is that of `open_tree` and leaves the file as it is when the thread is first; when it is not, and opening
    -- succeeds, the root is an empty leaf, whatever the file had there.
    pub open_without_log_lem :
        (file : disk.File) (memory_tier : MemoryTier)
        → num_pages disk (open_pager disk file) ≢ 0
        → (open_without_log open_first file memory_tier).0 ≡ ok tt
        → (open_without_log thread_first file memory_tier
            ≡ open_tree disk nodes clock file [] memory_tier)
          × (open_without_log thread_first file memory_tier ≡ (ok tt, just_opened file memory_tier))
          × (read_node disk nodes others
                (pages_of disk nodes clock others (open_without_log open_first file memory_tier).1)
                0
              ≡ ok new_leaf)
    unfolding open_without_log
    open_without_log_lem file memory_tier pages done =
        let some_page : (num_pages disk (open_pager disk file) == 0) ≡ false =
          ground (arith, pages, ==_iff (num_pages disk (open_pager disk file)) 0) in
        (
          open_without_log-thread_first file memory_tier,
          rw (open_without_log, some_page) refl,
          write_root_lem (just_opened file memory_tier) done,
        )
