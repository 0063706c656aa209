-- ===== src/Storage/Btree/PageTests.antt =====
-- src/storage/btree.rs: saving and opening on a disk that keeps pages by their offset.
use kssql.Common.{
  ℕ, ◌<◌, ◌≡◌, ◌≢◌, refl, Option, none, some, List, [], ◌∷◌, ◌++◌, Bytes, zeros, length, arith,
}
use kssql.Common.Int.{pos}
use kssql.Common.Result.{ok}
use kssql.Storage.Codec.{Codec, IsFaithful}
use kssql.Storage.MemoryTier.{new_tier}
use kssql.Storage.Pager.Tests.{test_disk, is_disk}
use kssql.Storage.Wal.Frame.{WalEntry, page_update, record_update}
use kssql.Storage.Wal.Queue.{open_wal}
use kssql.Storage.Btree.Node.{NodeType, Node, leaf, internal, new_leaf, to_bytes}
use kssql.Storage.Btree.Pages.{Pages, read_node, save_node}
use kssql.Storage.Btree.Pages.SaveNode.{WritesWhole}
use kssql.Storage.Btree.Pages.{node_store}
use kssql.Storage.Btree.Pages.Lawful.{IsSoundState, node_store-IsStore}
use kssql.Storage.Btree.Store.{IsStore}
use kssql.Storage.Btree.Open.{open_tree, drain_round}
use kssql.Storage.Btree.Open.Race.{
  thread_first, open_first, just_opened, open_without_log, open_without_log_lem,
}
use kssql.Storage.Pager.{num_pages, open_pager, write_page, sync}
use kssql.Storage.Btree.Open.Drained.{insert_each, drain_round_lem}
use kssql.Storage.Btree.Open.Restored.{pages_of, read_node-open_tree}

-- An encoding of the empty leaf alone.
abbrev encode_node : NodeType → List Bytes → List ℕ → List Bytes → Option ℕ → Option Bytes
encode_node leaf [] [] [] none = some (1 ∷ [])
encode_node _ _ _ _ _ = none

abbrev decode_node : Bytes → Option Node
decode_node (b ∷ rest) = some new_leaf
decode_node [] = none

abbrev pub nodes : Codec Node
nodes = record {
  serialize = λ node. encode_node node.node_type node.keys node.children node.values node.next_leaf;
  deserialize = decode_node;
}

node_back :
    (kind : NodeType) (ks : List Bytes) (ids : List ℕ) (vs : List Bytes) (link : Option ℕ)
    (b : Bytes) (n : ℕ)
    → encode_node kind ks ids vs link ≡ some b
    → (decode_node (b ++ zeros n)
        ≡ some
            (record { node_type = kind; keys = ks; children = ids; values = vs; next_leaf = link }))
      × (0 < length b)
node_back leaf [] [] [] none b n h = let e : b ≡ 1 ∷ [] = cc in rw e (refl, omega arith)
node_back leaf [] [] [] (some next) b n h = cc
node_back leaf [] [] (v ∷ vs) link b n h = cc
node_back leaf [] (id ∷ ids) vs link b n h = cc
node_back leaf (k ∷ ks) ids vs link b n h = cc
node_back internal ks ids vs link b n h = cc

pub nodes-IsFaithful : IsFaithful nodes
nodes-IsFaithful = record {
  read_back = λ node b n h.
      (node_back node.node_type node.keys node.children node.values node.next_leaf b n h).0;
  nonempty = λ node b h.
      (node_back node.node_type node.keys node.children node.values node.next_leaf b 0 h).1;
}

pub writes_whole : WritesWhole test_disk
writes_whole file page offset n h = cc

abbrev alone : ℕ → List WalEntry → List WalEntry
alone n queue = queue

abbrev empty_pages : Pages test_disk nodes alone
empty_pages = record { pager = record { file = []; file_length = 0 }; wal = open_wal [] }

abbrev leaf_page : Bytes
leaf_page = zeros 4 ++ (1 ∷ zeros 4091)

saves : (save_node test_disk nodes alone 0 new_leaf empty_pages).0 ≡ ok tt
unfolding save_node open_wal
saves = refl

leaf_bytes : to_bytes nodes new_leaf ≡ ok leaf_page
unfolding to_bytes
leaf_bytes = refl

-- The page 1 comes from the log, where a record follows it.
opens :
    (open_tree test_disk nodes pos []
      (page_update 1 leaf_page ∷ record_update [] [] ∷ [])
      (new_tier 1)).0
    ≡ ok tt
unfolding open_tree new_tier
opens = refl

read_node-open_tree_example :
    read_node test_disk nodes alone
      (pages_of test_disk nodes pos alone
        (open_tree test_disk nodes pos []
          (page_update 1 leaf_page ∷ record_update [] [] ∷ [])
          (new_tier 1)).1)
      1
    ≡ ok new_leaf
read_node-open_tree_example =
    read_node-open_tree test_disk nodes pos alone is_disk writes_whole nodes-IsFaithful [] []
      (record_update [] [] ∷ []) 1 new_leaf leaf_page (new_tier 1) leaf_bytes refl (omega arith)
      (omega arith, (tt, tt)) (tt, tt) opens

-- A page update and a record wait for the log.
abbrev waiting : Pages test_disk nodes alone
waiting = record empty_pages {
  wal = record (open_wal []) { queue = page_update 1 leaf_page ∷ record_update [] [] ∷ [] };
}

drain_round_lem_example :
    drain_round test_disk nodes alone 1 waiting
    ≡ insert_each test_disk nodes alone 1
        (([], []) ∷ [])
        (record waiting { wal = record waiting.wal { queue = [] } })
drain_round_lem_example = drain_round_lem test_disk nodes alone 1 waiting

node_store-IsStore_example :
    IsStore (node_store test_disk nodes alone) (IsSoundState test_disk nodes alone)
node_store-IsStore_example =
    node_store-IsStore test_disk nodes alone is_disk writes_whole nodes-IsFaithful

-- A file whose one page has a stored checksum that is wrong.
abbrev damaged : test_disk.File
damaged = (0, 1 ∷ zeros 4095) ∷ []

one_page : num_pages test_disk (open_pager test_disk damaged) ≢ 0
unfolding num_pages open_pager
one_page = λ e. absurd (omega (arith, e))

overwrites : (open_without_log test_disk nodes pos open_first damaged (new_tier 1)).0 ≡ ok tt
unfolding open_without_log open_pager to_bytes write_page sync
overwrites = refl

open_without_log_lem_example :
    (open_without_log test_disk nodes pos thread_first damaged (new_tier 1)
      ≡ open_tree test_disk nodes pos damaged [] (new_tier 1))
    × (open_without_log test_disk nodes pos thread_first damaged (new_tier 1)
        ≡ (ok tt, just_opened test_disk nodes pos damaged (new_tier 1)))
    × (read_node test_disk nodes alone
          (pages_of test_disk nodes pos alone
            (open_without_log test_disk nodes pos open_first damaged (new_tier 1)).1)
          0
        ≡ ok new_leaf)
open_without_log_lem_example =
    open_without_log_lem test_disk nodes pos alone is_disk writes_whole nodes-IsFaithful damaged
      (new_tier 1) one_page overwrites
