-- ===== src/Engine/Scan/Leaves.antt =====
-- src/parser/engine.rs: the walk over the chain of leaves, and what a whole scan returns.
use kssql.Common.{
  ℕ, suc, ◌≡◌, refl, sym, ap, ◌∙◌, inl, inr, false, none, some, [], ◌++◌, Bytes, length,
  bytes_equality, arith, ◌==◌,
}
use kssql.Common.Dict.{Dict, IsUnique}
use kssql.Common.Result.{Result, ok, Result-cases}
use kssql.Storage.Codec.{Codec}
use kssql.Storage.Btree.Node.{Record, Node}
use kssql.Engine.State.{Engine, World}
use kssql.Engine.Rows.{Row}
use kssql.Engine.Scan.{Found, first_leaf, scan_leaves, scan_all}
use kssql.Engine.Scan.Reference.{
  pairs, unseen, keys_of, rows_of, shown_rows, found_more, scan_pairs, scan_cache_lem,
  scan_pairs_lem, scan_leaf_lem, scan_pairs-append,
}

-- From this page on, the chain of leaves holds these records, in this number of leaves at most. Each leaf
-- has as many values as keys, and none links to itself.
pub data Leaves (load : ℕ → Result Node) : ℕ → Dict Bytes Bytes → ℕ → Type 0 where
  last :
      {page n : ℕ} {es : Dict Bytes Bytes} (node : Node)
      → load page ≡ ok node
      → length node.keys ≡ length node.values
      → node.next_leaf ≡ none
      → es ≡ pairs node.keys node.values
      → Leaves load page es (suc n)
  link :
      {page next n : ℕ} {es rest : Dict Bytes Bytes} (node : Node)
      → load page ≡ ok node
      → length node.keys ≡ length node.values
      → node.next_leaf ≡ some next
      → (next == page) ≡ false
      → es ≡ pairs node.keys node.values ++ rest
      → Leaves load next rest n
      → Leaves load page es (suc n)

module _ (world : World) (records : Codec Record) (table_name : Bytes) (version : ℕ) where
  open world use {store, depth, chain, row_codec}

  walk_lem :
      (pages : store.State) {page n : ℕ} {es : Dict Bytes Bytes} (found found' : Found)
      → Leaves (store.load pages) page es n
      → scan_pairs records row_codec table_name version es found ≡ ok found'
      → scan_leaves world records table_name version n pages page found ≡ ok found'
  unfolding scan_leaves
  walk_lem pages found found' (last node at paired end all) done =
      let here =
        scan_leaf_lem records row_codec table_name version node.keys node.values found paired in
      let fine =
        here ∙ ap (λ l. scan_pairs records row_codec table_name version l found) (sym all) ∙ done in
      rw (scan_leaves, at, fine, end) refl
  walk_lem pages {page} found found' (link {rest = rest} node at paired on differs all others)
        done =
      let here =
        scan_leaf_lem records row_codec table_name version node.keys node.values found paired in
      let split =
        scan_pairs-append records row_codec table_name version (pairs node.keys node.values) rest
          found in
      let whole =
        sym split
        ∙ ap (λ l. scan_pairs records row_codec table_name version l found) (sym all)
        ∙ done in
      elim (Result-cases
        (scan_pairs records row_codec table_name version (pairs node.keys node.values) found)) [
          | inr (e, bad) ↦ absurd (ground (arith, whole, bad))
          | inl (mid, good) ↦
              let further : scan_pairs records row_codec table_name version rest mid ≡ ok found' =
                ground (arith, whole, good) in
              rw (scan_leaves, at, here ∙ good, on, differs)
                (walk_lem pages mid found' others further)
        ]

  -- If the leftmost leaf is found, the chain of leaves from it holds just the records `es`, in no
  -- more leaves than are walked, no key stands twice in `es`, the records of the memory tier show the rows `c`,
  -- and the records of `es` whose keys are not among those of `c` show the rows `t`, then a scan
  -- returns the rows of `c` and behind them those of `t`.
  pub scan_all_lem :
      (s : Engine store) (page : ℕ) (es : Dict Bytes Bytes) (c t : Dict Bytes Row)
      → first_leaf world records depth s.btree.pages 0 ≡ ok page
      → Leaves (store.load s.btree.pages) page es chain
      → IsUnique es
      → shown_rows records row_codec table_name version s.btree.memory_tier.cache ≡ ok c
      → shown_rows records row_codec table_name version (unseen (keys_of c) es) ≡ ok t
      → scan_all world records table_name version s ≡ ok (rows_of c ++ rows_of t)
  unfolding scan_all
  scan_all_lem s page es c t first leaves unique in_tier in_tree =
      let tier =
        scan_cache_lem records row_codec table_name version s.btree.memory_tier.cache c ([], [])
          in_tier in
      let tree =
        scan_pairs_lem records row_codec table_name version es t
          (found_more records row_codec table_name version ([], []) c) unique in_tree in
      rw (scan_all, tier, first, walk_lem s.btree.pages _ _ leaves tree) refl
