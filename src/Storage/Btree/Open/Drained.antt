-- ===== src/Storage/Btree/Open/Drained.antt =====
-- src/parser/engine.rs: what a turn of the drain thread takes from the queue.
use kssql.Common.{ℕ, zero, suc, ◌≡◌, refl, ap, ◌∙◌, List, [], ◌∷◌, take, drop, Bytes}
use kssql.Storage.Codec.{Codec}
use kssql.Storage.Pager.{Disk}
use kssql.Storage.Wal.Frame.{
  WalEntry, page_update, record_update, transaction_start, transaction_commit, transaction_rollback,
}
use kssql.Storage.Wal.Queue.{Wal}
use kssql.Storage.Btree.Node.{Node}
use kssql.Storage.Btree.Pages.{Pages, node_store}
use kssql.Storage.Btree.Tree.{insert}
use kssql.Storage.Btree.Open.{pop_entries, drain_entry, drain_entries, drain_round}

-- The records among the entries.
abbrev pub records_in : List WalEntry → List (Bytes × Bytes)
records_in [] = []
records_in (record_update key bytes ∷ entries) = (key, bytes) ∷ records_in entries
records_in (page_update page_id bytes ∷ entries) = records_in entries
records_in (transaction_start id ∷ entries) = records_in entries
records_in (transaction_commit id version time ∷ entries) = records_in entries
records_in (transaction_rollback id ∷ entries) = records_in entries

pop_entries_lem :
    (n : ℕ) (queue : List WalEntry) (wal : Wal)
    → pop_entries n (record wal { queue = queue })
      ≡ (take n queue, record wal { queue = drop n queue })
unfolding pop_entries
pop_entries_lem zero queue wal = refl
pop_entries_lem (suc n) [] wal = refl
pop_entries_lem (suc n) (entry ∷ queue) wal =
    ap (λ r. (entry ∷ r.0, r.1)) (pop_entries_lem n queue wal)

module _ (disk : Disk) (nodes : Codec Node) (others : ℕ → List WalEntry → List WalEntry) where
  -- The records put in the tree, one after the other.
  unfoldable pub insert_each :
      ℕ → List (Bytes × Bytes) → Pages disk nodes others → Pages disk nodes others
  unfolding node_store insert
  insert_each depth [] pages = pages
  insert_each depth ((key, bytes) ∷ rest) pages =
      insert_each depth rest (insert (node_store disk nodes others) depth 0 key bytes pages).1

  drain_entries_lem :
      (depth : ℕ) (entries : List WalEntry) (pages : Pages disk nodes others)
      → drain_entries disk nodes others depth entries pages
        ≡ insert_each depth (records_in entries) pages
  unfolding drain_entry insert_each
  drain_entries_lem depth [] pages = refl
  drain_entries_lem depth (page_update page_id bytes ∷ entries) pages =
      drain_entries_lem depth entries pages
  drain_entries_lem depth (record_update key bytes ∷ entries) pages =
      drain_entries_lem depth entries _
  drain_entries_lem depth (transaction_start id ∷ entries) pages =
      drain_entries_lem depth entries pages
  drain_entries_lem depth (transaction_commit id version time ∷ entries) pages =
      drain_entries_lem depth entries pages
  drain_entries_lem depth (transaction_rollback id ∷ entries) pages =
      drain_entries_lem depth entries pages

  -- A turn of the drain thread takes the oldest 1,000 entries from the queue, or all if they are fewer, and
  -- then puts the records among them in the tree, in their order, whether or not each insertion succeeds. The
  -- page updates among them go nowhere.
  pub drain_round_lem :
      (depth : ℕ) (pages : Pages disk nodes others)
      → drain_round disk nodes others depth pages
        ≡ insert_each depth
            (records_in (take 1000 pages.wal.queue))
            (record pages { wal = record pages.wal { queue = drop 1000 pages.wal.queue } })
  unfolding drain_round
  drain_round_lem depth pages =
      ap (λ r. drain_entries disk nodes others depth r.0 (record pages { wal = r.1 }))
        (pop_entries_lem 1000 pages.wal.queue pages.wal)
      ∙ drain_entries_lem depth (take 1000 pages.wal.queue) _
