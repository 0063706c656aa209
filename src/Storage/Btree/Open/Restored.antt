-- ===== src/Storage/Btree/Open/Restored.antt =====
-- src/storage/btree.rs: `open` brings back each node that the log has.
use kssql.Common.{
  ℕ, zero, suc, ◌*◌, ◌-◌, ◌<◌, ◌^◌, ◌%◌, ◌≡◌, ◌≤◌, refl, sym, ap, ◌∙◌, subst, some, List, [], ◌∷◌,
  ◌++◌, append-nil, Bytes, length, take, All, arith, ◌==◌, false,
}
use kssql.Common.Int.{ℤ}
use kssql.Common.Result.{ok}
use kssql.Common.Exec.{>>=-ok, ◌>>◌}
use kssql.Storage.Codec.{Codec, IsFaithful}
use kssql.Storage.MemoryTier.{MemoryTier}
use kssql.Storage.Pager.{Disk, IsDisk, page_size, read_page, stamp, num_pages, open_pager}
use kssql.Storage.Pager.Checksum.{drop-stamp, length-stamp, read_whole, check_page-stamp}
use kssql.Storage.Wal.Frame.{WalEntry, page_update}
use kssql.Storage.Wal.Queue.{open_wal, read_all}
use kssql.Storage.Btree.Node.{Node, to_bytes}
use kssql.Storage.Btree.Pages.{Pages, read_node}
use kssql.Storage.Btree.Pages.SaveNode.{WritesWhole, to_bytes_lem}
use kssql.Storage.Btree.Open.{
  Opened, page_image, replay, replay_all, sync_pages, make_root, open_tree,
}
use kssql.Storage.Btree.Open.Replay.{IsOther, IsSmall, replay_last}

take_whole : (n : ℕ) (xs : Bytes) → length xs ≤ n → take n xs ≡ xs
take_whole zero [] h = refl
take_whole zero (x ∷ xs) h = absurd (omega arith)
take_whole (suc n) [] h = refl
take_whole (suc n) (x ∷ xs) h = ap (λ l. x ∷ l) (take_whole n xs (omega arith))

page_image_whole : (bytes : Bytes) → length bytes ≡ page_size → page_image bytes ≡ bytes
page_image_whole bytes long =
    let none_left : page_size - length bytes ≡ 0 = omega (arith, long) in
    rw (none_left, take_whole page_size bytes (omega (arith, long))) (append-nil bytes)

module _ (disk : Disk) (nodes : Codec Node) (clock : ℕ → ℤ)
    (others : ℕ → List WalEntry → List WalEntry) where
  -- what was opened, as the tree uses it
  abbrev pub pages_of : Opened disk nodes clock → Pages disk nodes others
  pages_of opened = record { pager = opened.pager; wal = opened.wal }

  pub replay_all_some :
      (before after : List WalEntry) (entry : WalEntry)
      → replay_all disk nodes clock (before ++ entry ∷ after)
        ≡ (replay disk nodes clock (before ++ entry ∷ after) >> sync_pages disk nodes clock)
  replay_all_some [] after entry = refl
  replay_all_some (x ∷ before) after entry = refl

  make_root_none :
      (s : Opened disk nodes clock)
      → 1 ≤ num_pages disk s.pager
      → make_root disk nodes clock s ≡ (ok tt, s)
  unfolding make_root
  make_root_none s h =
      let some_page : (num_pages disk s.pager == 0) ≡ false = ground (arith, h) in
      rw (make_root, some_page) refl

  -- On a disk that reads back what was written, and whose writes are whole if they succeed: if the log
  -- has the page of a node, that `to_bytes` made, and after it no other page for the same id, the file is
  -- a whole number of pages, fewer than 2 ^ 32, the ids in the log are below the last `u32`, and opening
  -- succeeds, then the node is read at its id, whatever the file had there.
  pub read_node-open_tree :
      (laws : IsDisk disk) (whole : WritesWhole disk) (faithful : IsFaithful nodes)
      (file : disk.File) (before after : List WalEntry) (page_id : ℕ) (node : Node) (bytes : Bytes)
      (memory_tier : MemoryTier)
      → to_bytes nodes node ≡ ok bytes
      → disk.size file % page_size ≡ 0
      → disk.size file < 2 ^ 44
      → All IsSmall (before ++ page_update page_id bytes ∷ after)
      → All (λ e. IsOther page_id e) after
      → (open_tree disk nodes clock file
          (before ++ page_update page_id bytes ∷ after)
          memory_tier).0
        ≡ ok tt
      → read_node disk nodes others
          (pages_of
            (open_tree disk nodes clock file
              (before ++ page_update page_id bytes ∷ after)
              memory_tier).1)
          page_id
        ≡ ok node
  unfolding open_tree read_node read_page open_pager
  read_node-open_tree laws whole faithful file before after page_id node bytes memory_tier made
        aligned few small other done =
      let entries = before ++ page_update page_id bytes ∷ after in
      let s : Opened disk nodes clock = record {
        pager = open_pager disk file;
        wal = (read_all (open_wal entries)).1;
        memory_tier = memory_tier;
        ticks = 0;
      } in
      let (u, replayed, on) =
        >>=-ok (replay_all disk nodes clock entries) (λ (u : Unit {0}). make_root disk nodes clock)
          s tt done in
      let all = replay_all_some before after (page_update page_id bytes) in
      let (v, fine, on') =
        >>=-ok (replay disk nodes clock entries) (λ (v : Unit {0}). sync_pages disk nodes clock) s u
          (sym (ap (λ f. (f s).0) all) ∙ replayed) in
      let t = (replay disk nodes clock entries s).1 in
      let same : (replay_all disk nodes clock entries s).1 ≡ t =
        ap (λ f. (f s).1) all ∙ ap (λ r. r.1) on' in
      let (held, some_page) =
        replay_last disk nodes clock laws whole before after page_id bytes s v small other
          (record { aligned = aligned; few = few }) fine in
      let ends : (open_tree disk nodes clock file entries memory_tier).1 ≡ t =
        ap (λ r. r.1) on
        ∙ ap (λ x. (make_root disk nodes clock x).1) same
        ∙ ap (λ r. r.1) (make_root_none t some_page) in
      let (long, read) = to_bytes_lem nodes faithful node bytes made in
      let held' : disk.read_at t.pager.file (page_id * page_size) ≡ some (stamp disk bytes) =
        held ∙ ap (λ b. some (stamp disk b)) (page_image_whole bytes long) in
      let back =
        read_whole disk t.pager page_id (stamp disk bytes) held' (length-stamp disk bytes long)
        ∙ check_page-stamp disk laws page_id bytes in
      subst (λ x. read_node disk nodes others (pages_of x) page_id ≡ ok node) (sym ends)
        (rw (read_node, back) (read (stamp disk bytes) (drop-stamp disk bytes)))
