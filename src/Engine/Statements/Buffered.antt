-- ===== src/Engine/Statements/Buffered.antt =====
-- src/parser/engine.rs: UPDATE and DELETE in an open transaction.
use kssql.Common.{
  ℕ, ◌+◌, ◌≡◌, ◌≢◌, refl, ap, ◌∙◌, Option, some, List, [], ◌∷◌, ◌++◌, Bytes, bytes_equality,
  nat_equality, arith,
}
use kssql.Common.Dict
use kssql.Common.Dict.{Dict, get-insert}
use kssql.Common.Exec.{Exec, pure, gets, ◌>>=◌, >>=-keeps}
use kssql.Common.Result.{Result, ok}
use kssql.Storage.Codec.{Codec}
use kssql.Storage.Btree.Node.{Record}
use kssql.Engine.State.{Transaction, Engine, World}
use kssql.Engine.Filter.{Expr}
use kssql.Common.Text.{to_decimal}
use kssql.Engine.Rows.{Row}
use kssql.Engine.Scan.{read_both, scan_table_with_filter}
use kssql.Engine.Transactions.{write_row}
use kssql.Engine.Untouched.{IsUntouched, IsUntouched-refl}
use kssql.Engine.Statements.{
  keys_matching, read_version, or_not_found, rewrite_rows, report, rewrite_selected, rewrite_at,
  rows_text, flush_unless_open, rewrite_table, handle_update, handle_delete, updated, deleted,
  updated_text, deleted_text,
}
use kssql.Engine.Statements.Answered.{IsCompleted, rewrite_table-IsCompleted}
use kssql.Engine.Statements.Reads.{read_both-IsUntouched, scan-IsUntouched}

-- Two states that differ in the writes of one connection's open transaction at most, and in metrics.
pub record IsBuffered (world : World) (conn_id : ℕ) (s t : Engine world.store) : Type 0 where
  pub cache : t.btree.memory_tier.cache ≡ s.btree.memory_tier.cache
  pub wal : t.btree.wal ≡ s.btree.wal
  pub pages : t.btree.pages ≡ s.btree.pages
  pub version : t.current_version ≡ s.current_version
  pub schemas : t.schemas ≡ s.schemas
  pub indices : t.indices ≡ s.indices
  pub others :
      (other : ℕ)
      → other ≢ conn_id
      → Dict.get t.active_transactions other ≡ Dict.get s.active_transactions other
  pub still_open :
      (tx : Transaction)
      → Dict.get s.active_transactions conn_id ≡ some tx
      → (tx' : Transaction) × (Dict.get t.active_transactions conn_id ≡ some tx')
        × (tx'.snapshot_version ≡ tx.snapshot_version)

module _ (world : World) (conn_id : ℕ) where
  -- The same, provided that the connection has an open transaction.
  abbrev pub Buffers : Engine world.store → Engine world.store → Type 0
  Buffers s t =
      (tx : Transaction)
      → Dict.get s.active_transactions conn_id ≡ some tx
      → IsBuffered world conn_id s t

  Buffers-trans : (s t u : Engine world.store) → Buffers s t → Buffers t u → Buffers s u
  Buffers-trans s t u a b tx open_tx =
      let p = a tx open_tx in
      let (tx', open_tx', same) = p.still_open tx open_tx in
      let q = b tx' open_tx' in
      record {
        cache = q.cache ∙ p.cache;
        wal = q.wal ∙ p.wal;
        pages = q.pages ∙ p.pages;
        version = q.version ∙ p.version;
        schemas = q.schemas ∙ p.schemas;
        indices = q.indices ∙ p.indices;
        others = λ other ne. q.others other ne ∙ p.others other ne;
        still_open = λ tx0 open0.
            let (tx1, open1, same1) = p.still_open tx0 open0 in
            let (tx2, open2, same2) = q.still_open tx1 open1 in (tx2, open2, same2 ∙ same1);
      }

  Untouched-Buffers : (s t : Engine world.store) → IsUntouched world s t → Buffers s t
  Untouched-Buffers s t u tx open_tx = record {
    cache = u.cache;
    wal = u.wal;
    pages = u.pages;
    version = u.version;
    schemas = u.schemas;
    indices = u.indices;
    others = λ other ne. ap (λ l. Dict.get l other) u.transactions;
    still_open = λ tx0 open0. (tx0, ap (λ l. Dict.get l conn_id) u.transactions ∙ open0, refl);
  }

  Buffers-refl : (s : Engine world.store) → Buffers s s
  Buffers-refl s = Untouched-Buffers s s (IsUntouched-refl world s)

  Buffers->>= :
      {A B : Type 0} (m : Exec (Engine world.store) A) (f : A → Exec (Engine world.store) B)
      (s : Engine world.store)
      → Buffers s (m s).1
      → ((a : A) (t : Engine world.store) → Buffers t (f a t).1)
      → Buffers s ((m >>= f) s).1
  Buffers->>= m f s first after = >>=-keeps Buffers Buffers-trans m f s first (λ a. after a (m s).1)

  module _ (records : Codec Record) where
    write_row-Buffers :
        (key val : Bytes) (s : Engine world.store)
        → Buffers s (write_row world records conn_id key val s).1
    unfolding write_row
    write_row-Buffers key val s tx open_tx =
        rw (write_row, open_tx)
          (record {
            cache = refl;
            wal = refl;
            pages = refl;
            version = refl;
            schemas = refl;
            indices = refl;
            others = λ other ne. ground (
              arith,
              get-insert s.active_transactions conn_id other
                  (record tx { updates = Dict.insert tx.updates key val }),
            );
            still_open = λ tx0 open0. (
              record tx { updates = Dict.insert tx.updates key val },
              ground (
                arith,
                get-insert s.active_transactions conn_id conn_id
                    (record tx { updates = Dict.insert tx.updates key val }),
              ),
              (let e : tx ≡ tx0 = cc in ap (λ x. x.snapshot_version) e),
            );
          })

    rewrite_rows-Buffers :
        (change : Bytes → Result Bytes) (keys : List Bytes) (count : ℕ) (s : Engine world.store)
        → Buffers s (rewrite_rows world records change conn_id keys count s).1
    unfolding rewrite_rows
    rewrite_rows-Buffers change [] count s = Buffers-refl s
    rewrite_rows-Buffers change (key ∷ keys) count s =
        Buffers->>= (read_both world key) _ s
          (Untouched-Buffers s _ (read_both-IsUntouched world key s))
          (λ found t. Buffers->>= (gets (λ u. or_not_found found)) _ t (Buffers-refl t) (λ bytes u.
            Buffers->>= (gets (λ v. change bytes)) _ u (Buffers-refl u) (λ val v.
              Buffers->>= (write_row world records conn_id key val) _ v
                (write_row-Buffers key val v)
                (λ done w. rewrite_rows-Buffers change keys (count + 1) w))))

    flush-Buffers :
        (s : Engine world.store) → Buffers s (flush_unless_open world records conn_id s).1
    unfolding flush_unless_open
    flush-Buffers s tx open_tx = rw (flush_unless_open, open_tx) (Buffers-refl s tx open_tx)

    report-Buffers :
        (text : Bytes) (count : ℕ) (s : Engine world.store)
        → Buffers s (report world records text conn_id count s).1
    report-Buffers text count s =
        Buffers->>= (flush_unless_open world records conn_id)
          (λ done. pure (text ++ (to_decimal count ++ rows_text))) s (flush-Buffers s)
          (λ done t. Buffers-refl t)

    rewrite_selected-Buffers :
        (change : Bytes → Result Bytes) (text : Bytes) (selection : Option Expr) (rows : List Row)
        (s : Engine world.store)
        → Buffers s (rewrite_selected world records change text selection conn_id rows s).1
    rewrite_selected-Buffers change text selection rows s =
        Buffers->>= (rewrite_rows world records change conn_id (keys_matching selection rows) 0)
          (λ count. report world records text conn_id count) s
          (rewrite_rows-Buffers change (keys_matching selection rows) 0 s)
          (λ count t. report-Buffers text count t)

    rewrite_at-Buffers :
        (change : ℕ → Bytes → Result Bytes) (text table_name : Bytes) (selection : Option Expr)
        (version : ℕ) (s : Engine world.store)
        → Buffers s (rewrite_at world records change text table_name selection conn_id version s).1
    rewrite_at-Buffers change text table_name selection version s =
        Buffers->>= (scan_table_with_filter world records table_name version selection)
          (λ rows. rewrite_selected world records (change version) text selection conn_id rows) s
          (Untouched-Buffers s _ (scan-IsUntouched world records table_name version selection s))
          (λ rows t. rewrite_selected-Buffers (change version) text selection rows t)

    rewrite_table-Buffers :
        (change : ℕ → Bytes → Result Bytes) (text table_name : Bytes) (selection : Option Expr)
        (s : Engine world.store)
        → Buffers s (rewrite_table world records change text table_name selection conn_id s).1
    unfolding rewrite_table
    rewrite_table-Buffers change text table_name selection s =
        Buffers->>= (gets (λ t. ok (read_version world records conn_id t)))
          (λ version. rewrite_at world records change text table_name selection conn_id version) s
          (Buffers-refl s)
          (λ version t. rewrite_at-Buffers change text table_name selection version t)

    -- In an open transaction, an UPDATE and a DELETE, whether they succeed or fail, change no row, page,
    -- queued entry, version, schema or index and no other connection's transaction, and the transaction stays
    -- open with its snapshot. If the scan at the snapshot fails, so does the statement, and nothing is written. If
    -- not, then for the keys of the rows that the clause selects, in their order, the transaction gets what the
    -- assignments, or the mark of a deletion, make of the record that is stored under the key: for all of
    -- them, and the answer is their number, or for those before one that failed, and the statement fails.
    pub statement-IsBuffered :
        (table_name : Bytes) (assignments : List (Bytes × Bytes)) (selection : Option Expr)
        (tx : Transaction) (s : Engine world.store)
        → Dict.get s.active_transactions conn_id ≡ some tx
        → IsBuffered world conn_id s
            (handle_update world records table_name assignments selection conn_id s).1
          × IsBuffered world conn_id s
              (handle_delete world records table_name selection conn_id s).1
          × IsCompleted world records conn_id
              (λ bytes. updated world records tx.snapshot_version assignments bytes)
              updated_text
              table_name
              selection
              tx
              s
              (handle_update world records table_name assignments selection conn_id s)
          × IsCompleted world records conn_id
              (λ bytes. deleted world records tx.snapshot_version bytes)
              deleted_text
              table_name
              selection
              tx
              s
              (handle_delete world records table_name selection conn_id s)
    unfolding handle_update handle_delete
    statement-IsBuffered table_name assignments selection tx s open_tx = (
      rewrite_table-Buffers (λ version bytes. updated world records version assignments bytes)
          updated_text table_name selection s tx open_tx,
      rewrite_table-Buffers (deleted world records) deleted_text table_name selection s tx open_tx,
      rewrite_table-IsCompleted world records conn_id
          (λ version bytes. updated world records version assignments bytes) updated_text table_name
          selection tx s open_tx,
      rewrite_table-IsCompleted world records conn_id (deleted world records) deleted_text
          table_name selection tx s open_tx,
    )
