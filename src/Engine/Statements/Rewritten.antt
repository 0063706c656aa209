-- ===== src/Engine/Statements/Rewritten.antt =====
-- src/parser/engine.rs: what UPDATE and DELETE write into an open transaction.
use kssql.Common.{
  ℕ, suc, ◌+◌, ◌≡◌, ◌≢◌, refl, sym, ap, subst, ◌∙◌, Option, none, some, List, [], ◌∷◌, ◌++◌, Bytes,
  All, map, length, bytes_equality, nat_equality, inl, inr, ◌⊎◌, Option-cases, arith,
}
use kssql.Common.Dict
use kssql.Common.Dict.{Dict, get-insert}
use kssql.Common.Result.{Result, Error, ok, err, record_not_found, Result-cases}
use kssql.Storage.Codec.{Codec}
use kssql.Storage.Btree.Node.{Record}
use kssql.Storage.Btree.Tree.{get_loop}
use kssql.Storage.Btree.Cached
use kssql.Storage.MemoryTier
use kssql.Storage.MemoryTier.Lookup.{get_lem}
use kssql.Engine.State.{Transaction, Engine, World, btree_get}
use kssql.Engine.Scan.{read_both}
use kssql.Engine.Transactions.{write_row}
use kssql.Engine.Statements.{rewrite_rows}
use kssql.Engine.Statements.Reads.{read_both-IsUntouched}

module _ (world : World) where
  open world use {store, depth}

  -- The record under a key: that of the memory tier, or else that of the tree.
  abbrev pub stored : Engine store → Bytes → Result (Option Bytes)
  stored s key = elim (Dict.get s.btree.memory_tier.cache key) [
    | some value ↦ ok (some value)
    | none ↦ get_loop store depth s.btree.pages key 0
  ]

  read_both-stored : (key : Bytes) (s : Engine store) → (read_both world key s).0 ≡ stored s key
  unfolding read_both btree_get Cached.get
  read_both-stored key s =
      let tier = s.btree.memory_tier in
      let once = get_lem key tier in
      let again = get_lem key (MemoryTier.get key tier).1 in
      let twice : (MemoryTier.get key (MemoryTier.get key tier).1).0 ≡ Dict.get tier.cache key =
        again.0 ∙ ap (λ c. Dict.get c key) once.1 in
      elim (Option-cases (Dict.get tier.cache key)) [
        | inl miss ↦
            let first : (MemoryTier.get key tier).0 ≡ none = once.0 ∙ miss in
            let second = twice ∙ miss in
            elim (Result-cases (get_loop store depth s.btree.pages key 0)) [
              | inl (below, fine) ↦ rw (read_both, second, fine, first, stored, miss, fine) refl
              | inr (e, bad) ↦ rw (read_both, second, bad, stored, miss, bad) refl
            ]
        | inr (value, hit) ↦
            let first : (MemoryTier.get key tier).0 ≡ some value = once.0 ∙ hit in
            let second = twice ∙ hit in rw (read_both, second, first, stored, hit) refl
      ]

  -- Updates put into the map of a transaction, one after the other.
  abbrev pub insert_each : Dict Bytes Bytes → List (Bytes × Bytes) → Dict Bytes Bytes
  insert_each updates [] = updates
  insert_each updates ((key, val) ∷ rest) = insert_each (Dict.insert updates key val) rest

  -- The new value is what the change makes of the record that is stored under the key.
  abbrev pub IsMade : (Bytes → Result Bytes) → Engine store → Bytes × Bytes → Type 0
  IsMade change s (key, val) =
      (bytes : Bytes) × (stored s key ≡ ok (some bytes)) × (change bytes ≡ ok val)

  -- The rows of these keys were rewritten in the transaction, in their order: all of them, and `out` is the
  -- number of rows, or those before one that failed.
  pub record IsRewritten (conn_id : ℕ) (change : Bytes → Result Bytes) (keys : List Bytes)
      (total : ℕ) (tx : Transaction) (s : Engine store) (out : Result ℕ × Engine store)
      : Type 0 where
    pub writes : List (Bytes × Bytes)
    pub rest : List Bytes
    pub in_order : map (λ w. w.0) writes ++ rest ≡ keys
    pub made : All (λ w. IsMade change s w) writes
    pub after : Transaction
    pub still_open : Dict.get out.1.active_transactions conn_id ≡ some after
    pub written : after.updates ≡ insert_each tx.updates writes
    pub outcome : ((rest ≡ []) × (out.0 ≡ ok total)) ⊎ ((rest ≢ []) × (e : Error) × (out.0 ≡ err e))

  same_stored :
      (s t : Engine store) (key : Bytes)
      → t.btree.memory_tier.cache ≡ s.btree.memory_tier.cache
      → t.btree.pages ≡ s.btree.pages
      → stored t key ≡ stored s key
  same_stored s t key cache pages = rw (cache, pages) refl

  pub IsMade-before :
      (change : Bytes → Result Bytes) (s t : Engine store) (writes : List (Bytes × Bytes))
      → t.btree.memory_tier.cache ≡ s.btree.memory_tier.cache
      → t.btree.pages ≡ s.btree.pages
      → All (λ w. IsMade change t w) writes
      → All (λ w. IsMade change s w) writes
  IsMade-before change s t [] cache pages h = tt
  IsMade-before change s t ((key, val) ∷ writes) cache pages ((bytes, held, new), h) = (
    (bytes, sym (same_stored s t key cache pages) ∙ held, new),
    IsMade-before change s t writes cache pages h,
  )

  nothing_written :
      (conn_id : ℕ) (change : Bytes → Result Bytes) (key : Bytes) (keys : List Bytes) (total : ℕ)
      (tx : Transaction) (s t : Engine store) (e : Error)
      → Dict.get t.active_transactions conn_id ≡ some tx
      → IsRewritten conn_id change (key ∷ keys) total tx s (err e, t)
  nothing_written conn_id change key keys total tx s t e open_tx = record {
    writes = [];
    rest = key ∷ keys;
    in_order = refl;
    made = tt;
    after = tx;
    still_open = open_tx;
    written = refl;
    outcome = inr ((λ h. absurd (cc h)), e, refl);
  }

  module _ (records : Codec Record) (conn_id : ℕ) where
    -- One row, and the others from the state that it leaves.
    first_written :
        (change : Bytes → Result Bytes) (key val bytes : Bytes) (keys : List Bytes) (total : ℕ)
        (tx tx' : Transaction) (s w : Engine store) (out : Result ℕ × Engine store)
        → w.btree.memory_tier.cache ≡ s.btree.memory_tier.cache
        → w.btree.pages ≡ s.btree.pages
        → tx'.updates ≡ Dict.insert tx.updates key val
        → stored s key ≡ ok (some bytes)
        → change bytes ≡ ok val
        → IsRewritten conn_id change keys total tx' w out
        → IsRewritten conn_id change (key ∷ keys) total tx s out
    first_written change key val bytes keys total tx tx' s w out cache pages grown held new r =
        record {
          writes = (key, val) ∷ r.writes;
          rest = r.rest;
          in_order = ap (λ l. key ∷ l) r.in_order;
          made = ((bytes, held, new), IsMade-before change s w r.writes cache pages r.made);
          after = r.after;
          still_open = r.still_open;
          written = r.written ∙ ap (λ u. insert_each u r.writes) grown;
          outcome = r.outcome;
        }

    pub rewrite_rows-IsRewritten :
        (change : Bytes → Result Bytes) (keys : List Bytes) (count : ℕ) (tx : Transaction)
        (s : Engine store)
        → Dict.get s.active_transactions conn_id ≡ some tx
        → IsRewritten conn_id change keys
            (count + length keys)
            tx
            s
            (rewrite_rows world records change conn_id keys count s)
    unfolding rewrite_rows write_row
    rewrite_rows-IsRewritten change [] count tx s open_tx = record {
      writes = [];
      rest = [];
      in_order = refl;
      made = tt;
      after = tx;
      still_open = open_tx;
      written = refl;
      outcome = inl (refl, ap ok (omega arith));
    }
    rewrite_rows-IsRewritten change (key ∷ keys) count tx s open_tx =
        let t = (read_both world key s).1 in
        let u = read_both-IsUntouched world key s in
        let read = read_both-stored key s in
        let open_t = ap (λ l. Dict.get l conn_id) u.transactions ∙ open_tx in
        elim (Result-cases (stored s key)) [
          | inr (e, bad) ↦
              let failed = read ∙ bad in
              rw (rewrite_rows, failed)
                (nothing_written conn_id change key keys (count + suc (length keys)) tx s t e
                  open_t)
          | inl (found, fine) ↦ elim (Option-cases found) [
            | inl gone ↦
                let absent = read ∙ fine ∙ ap ok gone in
                rw (rewrite_rows, absent)
                  (nothing_written conn_id change key keys (count + suc (length keys)) tx s t
                    record_not_found open_t)
            | inr (bytes, there) ↦
                let held = fine ∙ ap ok there in
                let got = read ∙ held in
                elim (Result-cases (change bytes)) [
                  | inr (e, bad) ↦
                      rw (rewrite_rows, got, bad)
                        (nothing_written conn_id change key keys (count + suc (length keys)) tx s t
                          e open_t)
                  | inl (val, new) ↦
                      let tx' = record tx { updates = Dict.insert tx.updates key val } in
                      let w : Engine store = record t {
                        active_transactions = Dict.insert t.active_transactions conn_id tx';
                      } in
                      let open_w : Dict.get w.active_transactions conn_id ≡ some tx' =
                        ground (arith, get-insert t.active_transactions conn_id conn_id tx') in
                      let same : count + 1 + length keys ≡ count + suc (length keys) =
                        omega arith in
                      let out = rewrite_rows world records change conn_id keys (count + 1) w in
                      rw (rewrite_rows, got, new, write_row, open_t)
                        (first_written change key val bytes keys (count + suc (length keys)) tx tx'
                          s w out u.cache u.pages refl held new
                          (subst (λ n. IsRewritten conn_id change keys n tx' w out) same
                            (rewrite_rows-IsRewritten change keys (count + 1) tx' w open_w)))
                ]
          ]
        ]
