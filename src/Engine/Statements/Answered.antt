-- ===== src/Engine/Statements/Answered.antt =====
-- src/parser/engine.rs: how an UPDATE or a DELETE in an open transaction ends.
use kssql.Common.{
  ℕ, ◌+◌, ◌≡◌, ◌≢◌, refl, ap, subst, ◌∙◌, Option, some, List, [], ◌++◌, Bytes, All, map, length,
  bytes_equality, nat_equality, inl, inr, ◌⊎◌, arith,
}
use kssql.Common.Dict
use kssql.Common.Dict.{Dict, get-insert}
use kssql.Common.Result.{Result, Error, ok, err, Result-cases}
use kssql.Storage.Codec.{Codec}
use kssql.Storage.Btree.Node.{Record}
use kssql.Engine.State.{Transaction, Engine, World}
use kssql.Common.Text.{to_decimal}
use kssql.Engine.Filter.{Expr}
use kssql.Engine.Rows.{Row}
use kssql.Engine.Scan.{scan_table_with_filter}
use kssql.Engine.Untouched.{IsUntouched}
use kssql.Engine.Statements.{
  rewrite_rows, rewrite_selected, rewrite_table, keys_matching, rows_text, read_version,
  flush_unless_open,
}
use kssql.Engine.Statements.Reads.{scan-IsUntouched}
use kssql.Engine.Statements.Rewritten.{
  insert_each, IsMade, IsMade-before, IsRewritten, rewrite_rows-IsRewritten,
}

module _ (world : World) where
  open world use {store}

  module _ (records : Codec Record) (conn_id : ℕ) where
    -- How an UPDATE or a DELETE in an open transaction ends: the scan failed, and nothing is written; or the
    -- rows that the scan found and the clause selects are rewritten, in their order, and their number is the
    -- answer, or a row failed and those before it are rewritten.
    pub record IsCompleted (change : Bytes → Result Bytes) (text table_name : Bytes)
        (selection : Option Expr) (tx : Transaction) (s : Engine store)
        (out : Result Bytes × Engine store) : Type 0 where
      pub keys : List Bytes
      pub writes : List (Bytes × Bytes)
      pub rest : List Bytes
      pub in_order : map (λ w. w.0) writes ++ rest ≡ keys
      pub made : All (λ w. IsMade world change s w) writes
      pub after : Transaction
      pub still_open : Dict.get out.1.active_transactions conn_id ≡ some after
      pub written : after.updates ≡ insert_each world tx.updates writes
      pub outcome :
          ((keys ≡ [])
            × (e : Error) × ((scan_table_with_filter world records table_name tx.snapshot_version
                  selection s).0
                ≡ err e)
            × (out.0 ≡ err e))
          ⊎ ((rows : List Row) × ((scan_table_with_filter world records table_name
                  tx.snapshot_version selection s).0
                ≡ ok rows)
              × (keys ≡ keys_matching selection rows)
              × (((rest ≡ []) × (out.0 ≡ ok (text ++ (to_decimal (length keys) ++ rows_text))))
                  ⊎ ((rest ≢ []) × (e : Error) × (out.0 ≡ err e))))

    rewrite_selected-IsCompleted :
        (change : Bytes → Result Bytes) (text table_name : Bytes) (selection : Option Expr)
        (rows : List Row) (tx : Transaction) (s t : Engine store)
        → IsUntouched world s t
        → Dict.get t.active_transactions conn_id ≡ some tx
        → (scan_table_with_filter world records table_name tx.snapshot_version selection s).0
          ≡ ok rows
        → IsCompleted change text table_name selection tx s
            (rewrite_selected world records change text selection conn_id rows t)
    unfolding flush_unless_open
    rewrite_selected-IsCompleted change text table_name selection rows tx s t u open_t scanned =
        let keys = keys_matching selection rows in
        let run = rewrite_rows world records change conn_id keys 0 t in
        let all : 0 + length keys ≡ length keys = omega arith in
        let r =
          subst (λ n. IsRewritten world conn_id change keys n tx t run) all
            (rewrite_rows-IsRewritten world records conn_id change keys 0 tx t open_t) in
        elim r.outcome [
          | inl (none_left, fine) ↦
              let flushed = r.still_open in
              rw (fine, flushed)
                (record {
                  keys = keys;
                  writes = r.writes;
                  rest = r.rest;
                  in_order = r.in_order;
                  made = IsMade-before world change s t r.writes u.cache u.pages r.made;
                  after = r.after;
                  still_open = r.still_open;
                  written = r.written;
                  outcome = inr (rows, scanned, refl, inl (none_left, refl));
                })
          | inr (some_left, e, bad) ↦ rw bad (record {
            keys = keys;
            writes = r.writes;
            rest = r.rest;
            in_order = r.in_order;
            made = IsMade-before world change s t r.writes u.cache u.pages r.made;
            after = r.after;
            still_open = r.still_open;
            written = r.written;
            outcome = inr (rows, scanned, refl, inr (some_left, e, refl));
          })
        ]

    pub rewrite_table-IsCompleted :
        (change : ℕ → Bytes → Result Bytes) (text table_name : Bytes) (selection : Option Expr)
        (tx : Transaction) (s : Engine store)
        → Dict.get s.active_transactions conn_id ≡ some tx
        → IsCompleted
            (change tx.snapshot_version)
            text
            table_name
            selection
            tx
            s
            (rewrite_table world records change text table_name selection conn_id s)
    unfolding rewrite_table read_version
    rewrite_table-IsCompleted change text table_name selection tx s open_tx =
        let u = scan-IsUntouched world records table_name tx.snapshot_version selection s in
        let open_t = ap (λ l. Dict.get l conn_id) u.transactions ∙ open_tx in
        elim (Result-cases
          (scan_table_with_filter world records table_name tx.snapshot_version selection s).0) [
            | inl (rows, fine) ↦
                rw (rewrite_table, read_version, open_tx, fine)
                  (rewrite_selected-IsCompleted (change tx.snapshot_version) text table_name
                    selection rows tx s _ u open_t fine)
            | inr (e, bad) ↦
                rw (rewrite_table, read_version, open_tx, bad)
                  (record {
                    keys = [];
                    writes = [];
                    rest = [];
                    in_order = refl;
                    made = tt;
                    after = tx;
                    still_open = open_t;
                    written = refl;
                    outcome = inl (refl, e, bad, refl);
                  })
          ]
