-- ===== src/Storage/Btree/Pages/Lawful.antt =====
-- src/storage/btree.rs: the pages of the pager are the store that the tree needs.
use kssql.Common.{
  ℕ, suc, ◌+◌, ◌-◌, ◌^◌, ◌<◌, ◌≡◌, ◌≢◌, sym, ap, ◌∙◌, subst, max, List, Bytes, zeros, length,
  length-zeros, arith,
}
use kssql.Common.Result.{ok}
use kssql.Common.Exec.{pure, >>=-ok}
use kssql.Storage.Codec.{Codec, IsFaithful}
use kssql.Storage.Pager.{Disk, IsDisk, page_size, read_page, num_pages}
use kssql.Storage.Wal.Frame.{WalEntry}
use kssql.Storage.Btree.Node.{Node}
use kssql.Storage.Btree.Store.{IsStore}
use kssql.Storage.Btree.Pages.{
  Pages, node_in, read_node, put_page, save_node, allocate_page, node_store,
}
use kssql.Storage.Btree.Pages.SaveNode.{
  WritesWhole, to_bytes_lem, save_node_run, read_node-save_node,
}
use kssql.Storage.Btree.Pages.Sound.{IsSound, num_pages-lt, write_page-IsSound, read_page-kept}

module _ (disk : Disk) (nodes : Codec Node) (others : ℕ → List WalEntry → List WalEntry) where
  -- The pages are sound, whatever is in the queue.
  unfoldable pub IsSoundState : (node_store disk nodes others).State → Type 0
  unfolding node_store
  IsSoundState pages = IsSound disk pages.pager

module _ (disk : Disk) (nodes : Codec Node) (others : ℕ → List WalEntry → List WalEntry)
    (laws : IsDisk disk) (whole : WritesWhole disk) (faithful : IsFaithful nodes) where
  abbrev IsSoundPages : Pages disk nodes others → Type 0
  IsSoundPages pages = IsSound disk pages.pager

  abbrev count_of : Pages disk nodes others → ℕ
  count_of pages = num_pages disk pages.pager

  put_page-IsSound :
      (page_id : ℕ) (page : Bytes) (s : Pages disk nodes others)
      → IsSoundPages s
      → page_id < 2 ^ 32 - 1
      → page_id < suc (count_of s)
      → length page ≡ page_size
      → (put_page disk nodes others page_id page s).0 ≡ ok tt
      → IsSoundPages (put_page disk nodes others page_id page s).1
        × (count_of (put_page disk nodes others page_id page s).1 ≡ max (count_of s) (page_id + 1))
  unfolding put_page
  put_page-IsSound page_id page s sound small near long done =
      write_page-IsSound disk laws whole page_id page s.pager sound small (omega (arith, near)) long
        done

  read_node-kept :
      (page_id other : ℕ) (page : Bytes) (s : Pages disk nodes others)
      → IsSoundPages s
      → length page ≡ page_size
      → (put_page disk nodes others page_id page s).0 ≡ ok tt
      → other ≢ page_id
      → other < count_of s
      → read_node disk nodes others (put_page disk nodes others page_id page s).1 other
        ≡ read_node disk nodes others s other
  unfolding put_page read_node
  read_node-kept page_id other page s sound long done ne below =
      ap (node_in disk nodes others)
        (read_page-kept disk laws whole page_id other page s.pager sound long done ne below)

  -- Saving a page that is there.
  save_node-IsSound :
      (id : ℕ) (node : Node) (s : Pages disk nodes others)
      → IsSoundPages s
      → (save_node disk nodes others id node s).0 ≡ ok tt
      → id < count_of s
      → IsSoundPages (save_node disk nodes others id node s).1
        × (count_of (save_node disk nodes others id node s).1 ≡ count_of s)
  save_node-IsSound id node s sound done below =
      let (bytes, t, made, pager, line, run) = save_node_run disk nodes others id node s done in
      let long = (to_bytes_lem nodes faithful node bytes made).0 in
      let sound_t : IsSound disk t.pager = subst (λ p. IsSound disk p) (sym pager) sound in
      let same : count_of t ≡ count_of s = ap (num_pages disk) pager in
      let (sound', count) =
        put_page-IsSound id bytes t sound_t (omega (arith, below, num_pages-lt disk s.pager))
          (omega (arith, below, same)) long (sym (ap (λ r. r.0) run) ∙ done) in
      (
        subst (λ r. IsSoundPages r.1) (sym run) sound',
        ap (λ r. count_of r.1) run ∙ omega (arith, count, same, below),
      )

  read_node-save_node_ne :
      (id other : ℕ) (node old : Node) (s : Pages disk nodes others)
      → IsSoundPages s
      → (save_node disk nodes others id node s).0 ≡ ok tt
      → other ≢ id
      → other < count_of s
      → read_node disk nodes others s other ≡ ok old
      → read_node disk nodes others (save_node disk nodes others id node s).1 other ≡ ok old
  unfolding read_node
  read_node-save_node_ne id other node old s sound done ne below was =
      let (bytes, t, made, pager, line, run) = save_node_run disk nodes others id node s done in
      let long = (to_bytes_lem nodes faithful node bytes made).0 in
      let sound_t : IsSound disk t.pager = subst (λ p. IsSound disk p) (sym pager) sound in
      let same : count_of t ≡ count_of s = ap (num_pages disk) pager in
      ap (λ r. read_node disk nodes others r.1 other) run
      ∙ read_node-kept id other bytes t sound_t long (sym (ap (λ r. r.0) run) ∙ done) ne
          (omega (arith, below, same))
      ∙ ap (λ p. node_in disk nodes others (read_page disk p other)) pager
      ∙ was

  -- An allocation that succeeds writes a page of zeros behind the last.
  allocate_page_run :
      (id : ℕ) (s : Pages disk nodes others)
      → (allocate_page disk nodes others s).0 ≡ ok id
      → (id ≡ count_of s)
        × ((put_page disk nodes others (count_of s) (zeros page_size) s).0 ≡ ok tt)
        × ((allocate_page disk nodes others s).1
            ≡ (put_page disk nodes others (count_of s) (zeros page_size) s).1)
  unfolding allocate_page
  allocate_page_run id s done =
      let (u, put, on) =
        >>=-ok (put_page disk nodes others (count_of s) (zeros page_size))
          (λ (u : Unit {0}). pure (count_of s)) s id done in
      (
        (let e : ok (count_of s) ≡ ok id = sym (ap (λ r. r.0) on) ∙ done in cc),
        put,
        ap (λ r. r.1) on,
      )

  allocate_page-IsSound :
      (id : ℕ) (s : Pages disk nodes others)
      → IsSoundPages s
      → suc (count_of s) < 2 ^ 32
      → (allocate_page disk nodes others s).0 ≡ ok id
      → IsSoundPages (allocate_page disk nodes others s).1
        × (count_of (allocate_page disk nodes others s).1 ≡ suc (count_of s))
  allocate_page-IsSound id s sound room done =
      let (fresh, put, run) = allocate_page_run id s done in
      let (sound', count) =
        put_page-IsSound (count_of s) (zeros page_size) s sound (omega (arith, room)) (omega arith)
          (length-zeros page_size) put in
      (subst (λ t. IsSoundPages t) (sym run) sound', ap count_of run ∙ omega (arith, count))

  -- On a disk that reads back what was written, whose writes are whole if they succeed, and with a bincode
  -- that reads back what it wrote, the pages of the pager keep the laws of a store in every sound state.
  pub node_store-IsStore : IsStore (node_store disk nodes others) (IsSoundState disk nodes others)
  unfolding node_store IsSoundState
  node_store-IsStore = record {
    load-save = λ id node s sound done.
        (read_node-save_node disk nodes others laws whole faithful id node s done).0;
    load-save_ne = λ id other node old s sound done ne below was.
        read_node-save_node_ne id other node old s sound done ne below was;
    count-save = λ id node s sound done below. (save_node-IsSound id node s sound done below).1;
    save-IsValid = λ id node s sound done below. (save_node-IsSound id node s sound done below).0;
    allocate-count = λ id s done. (allocate_page_run id s done).0;
    count-allocate = λ id s sound room done. (allocate_page-IsSound id s sound room done).1;
    allocate-IsValid = λ id s sound room done. (allocate_page-IsSound id s sound room done).0;
    load-allocate = λ id other old s sound room done below was.
        let (fresh, put, run) = allocate_page_run id s done in
        ap (λ t. read_node disk nodes others t other) run
        ∙ read_node-kept (count_of s) other (zeros page_size) s sound (length-zeros page_size) put
            (omega (arith, below)) below
        ∙ was;
  }
