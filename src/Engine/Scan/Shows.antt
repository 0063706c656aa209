-- ===== src/Engine/Scan/Shows.antt =====
-- src/parser/engine.rs: a scan that succeeds shows what the memory tier holds, whatever else it meets.
use mathlib.Core.List.{Memᴰ}
use mathlib.Core.List.Memᴰ
use kssql.Common.{
  ℕ, zero, suc, ◌≡◌, refl, sym, subst, inl, inr, Option, none, some, List, [], ◌∷◌, ◌++◌, Bytes,
  bytes_equality, bytes_eq, bytes_eq_iff, ◌==◌, arith, Bool-cases, Option-cases, if◌then◌else◌,
}
use kssql.Common.Dict
use kssql.Common.Dict.{Dict}
use kssql.Common.Result.{Result, ok, err, Result-cases}
use kssql.Common.Text.{starts_with, from_utf8_lossy}
use kssql.Storage.Codec.{Codec}
use kssql.Storage.Btree.Node.{Record}
use kssql.Engine.State.{Engine, World}
use kssql.Engine.Rows.{Row, visible_row}
use kssql.Engine.Scan.{
  Found, prefix_of, contains, add_found, or_panic_at, tail_of, scan_entry, scan_cache, scan_leaf,
  first_leaf, scan_leaves, scan_all,
}
use kssql.Engine.Scan.Reference.{shown, after, scan_entry_lem}

-- No row that was found is lost.
abbrev Keeps : Found → Found → Type 0
Keeps found found' = (row : Row) → Memᴰ row found.0 → Memᴰ row found'.0

module _ (records : Codec Record) (row_codec : Codec (Dict Bytes Bytes)) (table_name : Bytes)
    (version : ℕ) where
  add_found-Keeps :
      (key : Bytes) (found found' : Found) (r : Result (Option Row))
      → add_found records row_codec table_name version key found r ≡ ok found'
      → Keeps found found'
  add_found-Keeps key (rows, seen) found' (ok (some row)) h r m =
      let e : (rows ++ row ∷ [], seen ++ key ∷ []) ≡ found' = cc in
      subst (λ f. Memᴰ r f.0) e (Memᴰ.append_left (row ∷ []) m)
  add_found-Keeps key (rows, seen) found' (ok none) h r m =
      let e : (rows, seen) ≡ found' = cc in subst (λ f. Memᴰ r f.0) e m
  add_found-Keeps key (rows, seen) found' (err x) h r m = absurd (cc h)

  scan_entry-Keeps :
      (key : Bytes) (bytes : Result Bytes) (found found' : Found)
      → scan_entry records row_codec table_name version key bytes found ≡ ok found'
      → Keeps found found'
  unfolding scan_entry
  scan_entry-Keeps key bytes found found' h =
      elim (Bool-cases (starts_with (prefix_of table_name) (from_utf8_lossy key))) [
        | inr other ↦
            let e : found ≡ found' = ground (arith, other, h) in
            (λ r m. subst (λ f. Memᴰ r f.0) e m)
        | inl own ↦ elim (Result-cases bytes) [
          | inr (x, bad) ↦ absurd (ground (arith, own, bad, h))
          | inl (b, good) ↦
              let row = visible_row records row_codec table_name version (from_utf8_lossy key) b in
              let e : add_found records row_codec table_name version key found row ≡ ok found' =
                simp (own, good) at h in
              add_found-Keeps key found found' row e
        ]
      ]

  -- A step that keeps, before steps that keep.
  then-Keeps :
      (r : Result Found) (next : Found → Result Found) (found found' : Found)
      → elim r [ err e ↦ err e | ok f ↦ next f ] ≡ ok found'
      → ((f : Found) → r ≡ ok f → Keeps found f)
      → ((f : Found) → next f ≡ ok found' → Keeps f found')
      → Keeps found found'
  then-Keeps r next found found' h first rest = elim (Result-cases r) [
    | inl (f, good) ↦ (λ row m. rest f (simp good at h) row (first f good row m))
    | inr (e, bad) ↦ absurd (ground (arith, bad, h))
  ]

  scan_cache-Keeps :
      (cache : Dict Bytes Bytes) (found found' : Found)
      → scan_cache records row_codec table_name version cache found ≡ ok found'
      → Keeps found found'
  unfolding scan_cache
  scan_cache-Keeps [] found found' h =
      let e : found ≡ found' = cc in λ r m. subst (λ f. Memᴰ r f.0) e m
  scan_cache-Keeps ((key, bytes) ∷ cache) found found' h =
      then-Keeps (scan_entry records row_codec table_name version key (ok bytes) found)
        (λ f. scan_cache records row_codec table_name version cache f) found found' h
        (λ f good. scan_entry-Keeps key (ok bytes) found f good)
        (λ f good. scan_cache-Keeps cache f found' good)

  -- The row of an entry of the tier is among the rows that are found.
  scan_cache_shows :
      (cache : Dict Bytes Bytes) (found found' : Found) (key bytes : Bytes) (row : Row)
      → Dict.get cache key ≡ some bytes
      → shown records row_codec table_name version key bytes ≡ ok (some row)
      → scan_cache records row_codec table_name version cache found ≡ ok found'
      → Memᴰ row found'.0
  unfolding scan_cache
  scan_cache_shows [] found found' key bytes row held visible h = absurd (cc held)
  scan_cache_shows ((j, other) ∷ cache) found found' key bytes row held visible h =
      elim (Bool-cases (bytes_eq j key)) [
        | inl same ↦
            let k : j ≡ key = (bytes_eq_iff j key).0 same in
            let b : other ≡ bytes = ground (arith, same, held) in
            let next = after records row_codec table_name version j (some row) found in
            let here : scan_entry records row_codec table_name version j (ok other) found
                ≡ ok next =
              scan_entry_lem records row_codec table_name version j other found (some row) (
                subst (λ x. shown records row_codec table_name version x other ≡ ok (some row))
                  (sym k)
                  (subst (λ x. shown records row_codec table_name version key x ≡ ok (some row))
                    (sym b) visible)) in
            scan_cache-Keeps cache next found' (ground (arith, here, h)) row
              (Memᴰ.append_right found.0 (Memᴰ.head refl))
        | inr apart ↦
            elim (Result-cases
              (scan_entry records row_codec table_name version j (ok other) found)) [
                | inl (f, good) ↦
                    scan_cache_shows cache f found' key bytes row (ground (arith, apart, held))
                      visible (ground (arith, good, h))
                | inr (e, bad) ↦ absurd (ground (arith, bad, h))
              ]
      ]

  scan_leaf-Keeps :
      (keys values : List Bytes) (found found' : Found)
      → scan_leaf records row_codec table_name version keys values found ≡ ok found'
      → Keeps found found'
  unfolding scan_leaf
  scan_leaf-Keeps [] values found found' h =
      let e : found ≡ found' = cc in λ r m. subst (λ f. Memᴰ r f.0) e m
  scan_leaf-Keeps (key ∷ keys) values found found' h =
      then-Keeps
        (if contains found.1 key
          then ok found
          else scan_entry records row_codec table_name version key (or_panic_at values) found)
        (λ f. scan_leaf records row_codec table_name version keys (tail_of values) f) found found' h
        (λ f good. elim (Bool-cases (contains found.1 key)) [
          | inl old ↦
              (let e : found ≡ f = ground (arith, old, good) in λ r m. subst (λ g. Memᴰ r g.0) e m)
          | inr new ↦ scan_entry-Keeps key (or_panic_at values) found f (simp new at good)
        ])
        (λ f good. scan_leaf-Keeps keys (tail_of values) f found' good)

module _ (world : World) (records : Codec Record) where
  open world use {store, depth, chain, row_codec}

  scan_leaves-Keeps :
      (table_name : Bytes) (version fuel : ℕ) (pages : store.State) (page_id : ℕ)
      (found found' : Found)
      → scan_leaves world records table_name version fuel pages page_id found ≡ ok found'
      → Keeps found found'
  unfolding scan_leaves
  scan_leaves-Keeps table_name version zero pages page_id found found' h = absurd (cc h)
  scan_leaves-Keeps table_name version (suc fuel) pages page_id found found' h =
      elim (Result-cases (store.load pages page_id)) [
        | inr (e, bad) ↦ absurd (ground (arith, bad, h))
        | inl (node, at) ↦
            elim (Result-cases
              (scan_leaf records row_codec table_name version node.keys node.values found)) [
                | inr (e, bad) ↦ absurd (ground (arith, at, bad, h))
                | inl (f, good) ↦
                    let kept =
                      scan_leaf-Keeps records row_codec table_name version node.keys node.values
                        found f good in
                    elim (Option-cases node.next_leaf) [
                      | inl end ↦
                          let e : f ≡ found' = ground (arith, at, good, end, h) in
                          (λ r m. subst (λ g. Memᴰ r g.0) e (kept r m))
                      | inr (next, on) ↦ elim (Bool-cases (next == page_id)) [
                        | inl own ↦
                            let e : f ≡ found' = ground (arith, at, good, on, own, h) in
                            (λ r m. subst (λ g. Memᴰ r g.0) e (kept r m))
                        | inr differs ↦
                            let rest =
                              scan_leaves-Keeps table_name version fuel pages next f found'
                                (ground (arith, at, good, on, differs, h)) in
                            (λ r m. rest r (kept r m))
                      ]
                    ]
              ]
      ]

  -- If the memory tier holds a record that shows a row of the table at a version, then every scan of
  -- the table at this version that succeeds returns the row.
  pub scan_all_shows :
      (table_name : Bytes) (version : ℕ) (s : Engine store) (key bytes : Bytes) (row : Row)
      (rows : List Row)
      → Dict.get s.btree.memory_tier.cache key ≡ some bytes
      → shown records row_codec table_name version key bytes ≡ ok (some row)
      → scan_all world records table_name version s ≡ ok rows
      → Memᴰ row rows
  unfolding scan_all
  scan_all_shows table_name version s key bytes row rows held visible h =
      let cache = s.btree.memory_tier.cache in
      elim (Result-cases (scan_cache records row_codec table_name version cache ([], []))) [
        | inr (e, bad) ↦ absurd (ground (arith, bad, h))
        | inl (f, good) ↦ elim (Result-cases (first_leaf world records depth s.btree.pages 0)) [
          | inr (e, bad) ↦ absurd (ground (arith, good, bad, h))
          | inl (page, at) ↦
              elim (Result-cases
                (scan_leaves world records table_name version chain s.btree.pages page f)) [
                  | inr (e, bad) ↦ absurd (ground (arith, good, at, bad, h))
                  | inl (g, done) ↦
                      let e : g.0 ≡ rows = ground (arith, good, at, done, h) in
                      let m =
                        scan_cache_shows records row_codec table_name version cache ([], []) f key
                          bytes row held visible good in
                      subst (λ l. Memᴰ row l) e
                        (scan_leaves-Keeps table_name version chain s.btree.pages page f g done row
                          m)
                ]
        ]
      ]
