-- ===== src/Storage/Btree/Pages.antt =====
-- src/storage/btree.rs: the nodes in the pages of the pager. `save_node` puts each page that it saves
-- also in the queue of the log.
pub mod SaveNode
pub mod Sound
pub mod Lawful
use kssql.Common.{
  ℕ, suc, ◌+◌, ◌*◌, ◌≡◌, Bool, Option, none, some, List, [], ◌∷◌, ◌++◌, Bytes, zeros, length,
}
use kssql.Common.Result.{Result, ok, err, out_of_fuel}
use kssql.Common.Exec.{Exec, pure, gets, ◌>>=◌, ◌>>◌}
use kssql.Storage.Codec.{Codec}
use kssql.Storage.Pager
use kssql.Storage.Pager.{Disk, Pager, page_size, read_page, write_page, num_pages}
use kssql.Storage.Wal.Frame.{WalEntry, page_update}
use kssql.Storage.Wal.Queue.{Wal}
use kssql.Storage.Wal.Enqueue.{enqueue}
use kssql.Storage.Btree.Node.{Node, to_bytes, from_bytes, is_full}
use kssql.Storage.Btree.Store.{Store}

-- `nodes` is bincode, and `others` is what the other threads do to the queue while `enqueue` sleeps.
module _ (disk : Disk) (nodes : Codec Node) (others : ℕ → List WalEntry → List WalEntry) where
  pub record Pages : Type 0 where
    pub pager : Pager disk
    pub wal : Wal

  abbrev pub node_in : Result Bytes → Result Node
  node_in (err e) = err e
  node_in (ok page) = from_bytes nodes page

  -- `Node::from_bytes(&pager.read_page(page_id).await?)`
  unfoldable pub read_node : Pages → ℕ → Result Node
  unfolding from_bytes read_page
  read_node pages page_id = node_in (read_page disk pages.pager page_id)

  abbrev pub logged : Option (Result (List WalEntry)) → Exec Pages (Unit {0})
  logged none pages = (err out_of_fuel, pages)
  logged (some (err e)) pages = (err e, pages)
  logged (some (ok queue)) pages =
      (ok tt, record pages { wal = record pages.wal { queue = queue } })

  -- `wal.enqueue`
  unfoldable pub log_entry : WalEntry → Exec Pages (Unit {0})
  unfolding enqueue
  log_entry entry pages = logged (enqueue others entry pages.wal.queue) pages

  -- `pager.write_page`
  unfoldable pub put_page : ℕ → Bytes → Exec Pages (Unit {0})
  unfolding write_page
  put_page page_id bytes pages =
      let (r, pager) = write_page disk page_id bytes pages.pager in
      (r, record pages { pager = pager })

  unfoldable pub save_node : ℕ → Node → Exec Pages (Unit {0})
  unfolding log_entry put_page to_bytes
  save_node page_id node = do
    bytes ← gets (λ pages. to_bytes nodes node)
    log_entry (page_update page_id bytes)
    put_page page_id bytes

  unfoldable pub allocate_page : Exec Pages ℕ
  unfolding put_page num_pages
  allocate_page pages =
      let id = num_pages disk pages.pager in (put_page id (zeros page_size) >> pure id) pages

  -- The pages as the tree uses them.
  unfoldable pub node_store : Store
  unfolding read_node save_node allocate_page num_pages is_full Pager.sync
  node_store = record {
    State = Pages;
    count = λ pages. num_pages disk pages.pager;
    load = read_node;
    save = save_node;
    allocate = allocate_page;
    sync = λ pages. Pager.sync disk pages.pager;
    is_full = is_full nodes;
  }
