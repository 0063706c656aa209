-- ===== src/Engine/Scan/Reference.antt =====
-- src/parser/engine.rs: what a scan returns, said of the records as two lists: those of the memory
-- tier, and those of the chain of leaves.
use kssql.Common.{
  ℕ, ◌≡◌, refl, sym, ap, ◌∙◌, inl, inr, ◌||◌, Option, none, some, List, [], ◌∷◌, ◌++◌, append-nil,
  append_assoc, Bytes, length, bytes_equality, bytes_eq, bytes_eq_iff, arith, Bool-cases,
  if◌then◌else◌,
}
use kssql.Common.Dict
use kssql.Common.Dict.{Dict, IsUnique}
use kssql.Common.Result.{Result, ok, err, Result-cases}
use kssql.Common.Text.{starts_with, from_utf8_lossy}
use kssql.Storage.Codec.{Codec}
use kssql.Storage.Btree.Node.{Record}
use kssql.Engine.Rows.{Row, visible_row}
use kssql.Engine.Scan.{Found, prefix_of, contains, add_found, scan_entry, scan_cache, scan_leaf}

-- The records of a leaf.
abbrev pub pairs : List Bytes → List Bytes → Dict Bytes Bytes
pairs [] values = []
pairs (k ∷ keys) [] = []
pairs (k ∷ keys) (v ∷ values) = (k, v) ∷ pairs keys values

-- The records whose keys are not among these.
abbrev pub unseen : List Bytes → Dict Bytes Bytes → Dict Bytes Bytes
unseen seen [] = []
unseen seen ((k, v) ∷ rest) =
    let others = unseen seen rest in if contains seen k then others else (k, v) ∷ others

abbrev pub keys_of : Dict Bytes Row → List Bytes
keys_of [] = []
keys_of ((k, row) ∷ rest) = k ∷ keys_of rest

abbrev pub rows_of : Dict Bytes Row → List Row
rows_of [] = []
rows_of ((k, row) ∷ rest) = row ∷ rows_of rest

contains-snoc :
    (seen : List Bytes) (k key : Bytes)
    → contains (seen ++ k ∷ []) key ≡ (contains seen key || bytes_eq k key)
contains-snoc [] k key = ground arith
contains-snoc (s ∷ seen) k key = ground (arith, contains-snoc seen k key)

unseen-snoc :
    (seen : List Bytes) (k : Bytes) (es : Dict Bytes Bytes)
    → Dict.get es k ≡ none
    → unseen (seen ++ k ∷ []) es ≡ unseen seen es
unseen-snoc seen k [] fresh = refl
unseen-snoc seen k ((j, v) ∷ es) fresh =
    ground
      (arith, contains-snoc seen k j, bytes_eq_iff j k, bytes_eq_iff k j, unseen-snoc seen k es)

module _ (records : Codec Record) (row_codec : Codec (Dict Bytes Bytes)) (table_name : Bytes)
    (version : ℕ) where
  -- The row that an entry of the store shows in the table at a version, if it shows one.
  abbrev pub shown : Bytes → Bytes → Result (Option Row)
  shown key bytes =
      if starts_with (prefix_of table_name) (from_utf8_lossy key)
      then visible_row records row_codec table_name version (from_utf8_lossy key) bytes
      else ok none

  abbrev and_shown : Bytes → Option Row → Dict Bytes Row → Dict Bytes Row
  and_shown key none more = more
  and_shown key (some row) more = (key, row) ∷ more

  -- The rows that a list of records shows, each with its key.
  abbrev pub shown_rows : Dict Bytes Bytes → Result (Dict Bytes Row)
  shown_rows [] = ok []
  shown_rows ((key, bytes) ∷ rest) = elim (shown key bytes) [
    | err e ↦ err e
    | ok row ↦ elim (shown_rows rest) [ err e ↦ err e | ok more ↦ ok (and_shown key row more) ]
  ]

  abbrev pub found_more : Found → Dict Bytes Row → Found
  found_more (rows, seen) more = (rows ++ rows_of more, seen ++ keys_of more)

  abbrev pub after : Bytes → Option Row → Found → Found
  after key none found = found
  after key (some row) (rows, seen) = (rows ++ row ∷ [], seen ++ key ∷ [])

  found_more_nil : (found : Found) → found_more found [] ≡ found
  found_more_nil (rows, seen) = simp append-nil

  found_more-after :
      (key : Bytes) (row : Option Row) (found : Found) (more : Dict Bytes Row)
      → found_more (after key row found) more ≡ found_more found (and_shown key row more)
  found_more-after key none (rows, seen) more = refl
  found_more-after key (some row) (rows, seen) more = simp append_assoc

  add_found_ok :
      (key : Bytes) (found : Found) (row : Option Row)
      → add_found records row_codec table_name version key found (ok row) ≡ ok (after key row found)
  add_found_ok key (rows, seen) none = refl
  add_found_ok key (rows, seen) (some row) = refl

  pub scan_entry_lem :
      (key bytes : Bytes) (found : Found) (row : Option Row)
      → shown key bytes ≡ ok row
      → scan_entry records row_codec table_name version key (ok bytes) found
        ≡ ok (after key row found)
  unfolding scan_entry
  scan_entry_lem key bytes found row h =
      elim (Bool-cases (starts_with (prefix_of table_name) (from_utf8_lossy key))) [
        | inl own ↦
            let e : visible_row records row_codec table_name version (from_utf8_lossy key) bytes
                ≡ ok row =
              ground (arith, own, h) in
            rw (own, e) (add_found_ok key found row)
        | inr other ↦ let e : none ≡ row = ground (arith, other, h) in rw (other, sym e) refl
      ]

  -- The scan of records one after the other.
  pub scan_pairs : Dict Bytes Bytes → Found → Result Found
  scan_pairs [] found = ok found
  scan_pairs ((key, bytes) ∷ rest) found =
      elim (if contains found.1 key
        then ok found
        else scan_entry records row_codec table_name version key (ok bytes) found) [
          | err e ↦ err e
          | ok found' ↦ scan_pairs rest found'
        ]

  shown_rows-cons :
      (key bytes : Bytes) (rest : Dict Bytes Bytes) (all : Dict Bytes Row)
      → shown_rows ((key, bytes) ∷ rest) ≡ ok all
      → (row : Option Row) × (more : Dict Bytes Row) × (shown key bytes ≡ ok row)
        × (shown_rows rest ≡ ok more)
        × (all ≡ and_shown key row more)
  shown_rows-cons key bytes rest all h = elim (Result-cases (shown key bytes)) [
    | inr (e, bad) ↦ absurd (ground (arith, h, bad))
    | inl (row, good) ↦ elim (Result-cases (shown_rows rest)) [
      | inr (e, bad) ↦ absurd (ground (arith, h, good, bad))
      | inl (more, fine) ↦ (row, more, good, fine, ground (arith, h, good, fine))
    ]
  ]

  pub scan_cache_lem :
      (es : Dict Bytes Bytes) (c : Dict Bytes Row) (found : Found)
      → shown_rows es ≡ ok c
      → scan_cache records row_codec table_name version es found ≡ ok (found_more found c)
  unfolding scan_cache
  scan_cache_lem [] c found h =
      let e : [] ≡ c = ground arith in rw (sym e) (ap ok (sym (found_more_nil found)))
  scan_cache_lem ((key, bytes) ∷ es) c found h =
      let (row, more, good, fine, whole) = shown_rows-cons key bytes es c h in
      rw (scan_cache, scan_entry_lem key bytes found row good)
        (scan_cache_lem es more (after key row found) fine
          ∙ ap ok (found_more-after key row found more ∙ ap (found_more found) (sym whole)))

  pub scan_pairs_lem :
      (es : Dict Bytes Bytes) (t : Dict Bytes Row) (found : Found)
      → IsUnique es
      → shown_rows (unseen found.1 es) ≡ ok t
      → scan_pairs es found ≡ ok (found_more found t)
  unfolding scan_pairs
  scan_pairs_lem [] t found u h =
      let e : [] ≡ t = ground arith in rw (sym e) (ap ok (sym (found_more_nil found)))
  scan_pairs_lem ((key, bytes) ∷ es) t found u h = elim (Bool-cases (contains found.1 key)) [
    | inl old ↦ rw (scan_pairs, old) (scan_pairs_lem es t found u.1 (simp old at h))
    | inr new ↦
        let (row, more, good, fine, whole) =
          shown_rows-cons key bytes (unseen found.1 es) t (simp new at h) in
        rw (scan_pairs, new, scan_entry_lem key bytes found row good)
          (scan_pairs_lem es more (after key row found) u.1 (still key row found es more u.0 fine)
            ∙ ap ok (found_more-after key row found more ∙ ap (found_more found) (sym whole)))
  ]
    where
      still :
          (key : Bytes) (row : Option Row) (found : Found) (es : Dict Bytes Bytes)
          (more : Dict Bytes Row)
          → Dict.get es key ≡ none
          → shown_rows (unseen found.1 es) ≡ ok more
          → shown_rows (unseen (after key row found).1 es) ≡ ok more
      still key none found es more fresh h = h
      still key (some row) (rows, seen) es more fresh h =
          ap shown_rows (unseen-snoc seen key es fresh) ∙ h

  -- A leaf with as many values as keys is scanned record by record.
  pub scan_leaf_lem :
      (keys values : List Bytes) (found : Found)
      → length keys ≡ length values
      → scan_leaf records row_codec table_name version keys values found
        ≡ scan_pairs (pairs keys values) found
  unfolding scan_leaf scan_pairs
  scan_leaf_lem [] values found h = refl
  scan_leaf_lem (k ∷ keys) [] found h = absurd (omega arith)
  scan_leaf_lem (k ∷ keys) (v ∷ values) found h =
      elim (Result-cases (
        if contains found.1 k
        then ok found
        else scan_entry records row_codec table_name version k (ok v) found)) [
          | inr (e, bad) ↦ rw (scan_leaf, scan_pairs, bad) refl
          | inl (found', good) ↦
              rw (scan_leaf, scan_pairs, good) (scan_leaf_lem keys values found' (omega arith))
        ]

  pub scan_pairs-append :
      (xs ys : Dict Bytes Bytes) (found : Found)
      → scan_pairs (xs ++ ys) found
        ≡ elim (scan_pairs xs found) [ err e ↦ err e | ok found' ↦ scan_pairs ys found' ]
  unfolding scan_pairs
  scan_pairs-append [] ys found = refl
  scan_pairs-append ((k, v) ∷ xs) ys found =
      elim (Result-cases (
        if contains found.1 k
        then ok found
        else scan_entry records row_codec table_name version k (ok v) found)) [
          | inr (e, bad) ↦ rw (scan_pairs, bad) refl
          | inl (found', good) ↦ rw (scan_pairs, good) (scan_pairs-append xs ys found')
        ]
