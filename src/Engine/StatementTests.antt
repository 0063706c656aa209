-- ===== src/Engine/StatementTests.antt =====
-- src/parser/engine.rs: scans and statements on a small table, and the theorems at concrete inputs.
use kssql.Common.{
  ℕ, ◌≡◌, refl, none, some, [], ◌∷◌, ◌++◌, Bytes, length, bytes_equality, nat_equality, arith,
}
use kssql.Common.Dict
use kssql.Common.Result.{ok}
use kssql.Common.Text.{to_decimal}
use kssql.Storage.Btree.Node.{Node, new_leaf}
use kssql.Storage.Btree.Store.{Store}
use kssql.Storage.MemoryTier.{new_tier, get, insert, make_room}
use kssql.Storage.Wal.Queue.{open_wal, flush_pipeline}
use kssql.Storage.Wal.Enqueue.{enqueue}
use kssql.Engine.State.{TableSchema, Engine, World}
use kssql.Engine.Filter.{binary_op, identifier, value, eq, evaluate_where}
use kssql.Engine.Rows.{Row, row_of}
use kssql.Engine.Scan.{first_leaf, scan_all}
use kssql.Engine.Scan.Reference.{rows_of}
use kssql.Engine.Scan.Leaves.{Leaves, last, scan_all_lem}
use kssql.Engine.Statements.{
  handle_update, handle_delete, updated, deleted, updated_text, deleted_text, rows_text,
}
use kssql.Engine.Statements.Answered.{IsCompleted}
use kssql.Engine.Statements.Buffered.{IsBuffered, statement-IsBuffered}
use kssql.Engine.Insert.{values, number, handle_insert, inserted_text}
use kssql.Engine.Insert.Counts.{next_after, handle_insert_lem}
use kssql.Engine.Insert.Finish.{kept_schemas}
use kssql.Engine.Insert.Shown.{scan_table-handle_insert}
use kssql.Engine.Scan.{scan_table}
use kssql.Engine.Insert.{row_key}
use mathlib.Core.List.{Memᴰ}
use kssql.Engine.Tests.{faithful, rows, world, writes, empty_store}

-- "t", "t:1" and "t:2"
abbrev t : Bytes
t = 116 ∷ []

abbrev t1 : Bytes
t1 = 116 ∷ 58 ∷ 49 ∷ []

abbrev t2 : Bytes
t2 = 116 ∷ 58 ∷ 50 ∷ []

-- A record of the column `a` with one digit, of a version, deleted or not.
abbrev cell : ℕ → ℕ → ℕ → Bytes
cell version flag digit = version ∷ flag ∷ 9 ∷ 3 ∷ 1 ∷ 97 ∷ digit ∷ []

abbrev one_leaf : Node
one_leaf = record new_leaf { keys = t1 ∷ []; values = cell 0 0 51 ∷ [] }

abbrev leaf_store : Store
leaf_store = record empty_store { load = λ s id. ok one_leaf }

abbrev leaf_world : World
leaf_world = record world { store = leaf_store }

-- The leaf holds the row t:1, and the tier these records.
abbrev holding : Dict.Dict Bytes Bytes → Engine leaf_store
holding cache = record {
  btree = record {
    pages = tt;
    wal = open_wal [];
    memory_tier = record (new_tier 1) { cache = cache };
  };
  current_version = 1;
  active_transactions = (1, writes 11) ∷ [];
  schemas =
      (
        t,
        record {
          name = t;
          columns = (105 ∷ []) ∷ (97 ∷ []) ∷ [];
          auto_increment_col = some (105 ∷ []);
          next_id = 4;
        },
      )
      ∷ [];
  indices = [];
  ticks = 0;
  draws = 0;
}

abbrev row_at : Bytes → ℕ → Row
row_at key digit = row_of t key (((97 ∷ []), (digit ∷ [])) ∷ [])

two_rows :
    scan_all leaf_world rows t 1 (holding ((t2, cell 1 0 52) ∷ []))
    ≡ ok (row_at t2 52 ∷ row_at t1 51 ∷ [])
unfolding scan_all new_tier row_of
two_rows = refl

-- A row that the memory tier holds as deleted comes back from the tree.
deleted_row_returns :
    scan_all leaf_world rows t 1 (holding ((t1, cell 1 1 51) ∷ [])) ≡ ok (row_at t1 51 ∷ [])
unfolding scan_all new_tier row_of
deleted_row_returns = refl

one_leaf-Leaves : Leaves (λ id. ok one_leaf) 0 ((t1, cell 0 0 51) ∷ []) 1
one_leaf-Leaves = last one_leaf refl refl refl refl

scan_all_lem_example :
    scan_all leaf_world rows t 1 (holding ((t2, cell 1 0 52) ∷ []))
    ≡ ok (rows_of ((t2, row_at t2 52) ∷ []) ++ rows_of ((t1, row_at t1 51) ∷ []))
unfolding new_tier first_leaf scan_all
scan_all_lem_example =
    scan_all_lem leaf_world rows t 1 (holding ((t2, cell 1 0 52) ∷ [])) 0 ((t1, cell 0 0 51) ∷ [])
      ((t2, row_at t2 52) ∷ []) ((t1, row_at t1 51) ∷ []) refl one_leaf-Leaves (refl, tt) refl refl

updates_one :
    (handle_update leaf_world rows t
      (((97 ∷ []), (39 ∷ 57 ∷ 39 ∷ [])) ∷ [])
      (some (binary_op (identifier (97 ∷ [])) eq (value (51 ∷ []))))
      1
      (holding [])).0
    ≡ ok (85 ∷ 112 ∷ 100 ∷ 97 ∷ 116 ∷ 101 ∷ 100 ∷ 32 ∷ 49 ∷ rows_text)
unfolding handle_update new_tier get evaluate_where row_of
updates_one = refl

statement-IsBuffered_example :
    IsBuffered leaf_world 1
      (holding [])
      (handle_update leaf_world rows t (((97 ∷ []), (57 ∷ [])) ∷ []) none 1 (holding [])).1
    × IsBuffered leaf_world 1 (holding []) (handle_delete leaf_world rows t none 1 (holding [])).1
    × IsCompleted leaf_world rows 1
        (λ bytes.
          updated leaf_world rows (writes 11).snapshot_version (((97 ∷ []), (57 ∷ [])) ∷ []) bytes)
        updated_text
        t
        none
        (writes 11)
        (holding [])
        (handle_update leaf_world rows t (((97 ∷ []), (57 ∷ [])) ∷ []) none 1 (holding []))
    × IsCompleted leaf_world rows 1
        (λ bytes. deleted leaf_world rows (writes 11).snapshot_version bytes)
        deleted_text
        t
        none
        (writes 11)
        (holding [])
        (handle_delete leaf_world rows t none 1 (holding []))
statement-IsBuffered_example =
    statement-IsBuffered leaf_world 1 rows t (((97 ∷ []), (57 ∷ [])) ∷ []) none (writes 11)
      (holding []) refl

-- The columns are only written here.
abbrev insert_world : World
insert_world = record leaf_world {
  row_codec = record { serialize = λ row. some (length row ∷ []); deserialize = λ b. none };
}

abbrev t_schema : TableSchema
t_schema = record {
  name = t;
  columns = (105 ∷ []) ∷ (97 ∷ []) ∷ [];
  auto_increment_col = some (105 ∷ []);
  next_id = 4;
}

abbrev inserting : Engine leaf_store
inserting = record (holding []) { active_transactions = [] }

insert_succeeds :
    (handle_insert insert_world rows t
      (values ((number (53 ∷ []) ∷ []) ∷ (number (54 ∷ []) ∷ []) ∷ []))
      1
      inserting).0
    ≡ ok (inserted_text ++ (to_decimal 2 ++ rows_text))
unfolding handle_insert new_tier open_wal insert make_room enqueue flush_pipeline to_decimal
insert_succeeds = refl

handle_insert_lem_example :
    (inserted_text ++ (to_decimal 2 ++ rows_text) ≡ inserted_text ++ (to_decimal 2 ++ rows_text))
    × ((handle_insert insert_world rows t
          (values ((number (53 ∷ []) ∷ []) ∷ (number (54 ∷ []) ∷ []) ∷ []))
          1
          inserting).1.schemas
        ≡ kept_schemas t t_schema (next_after (some (105 ∷ [])) 2 4) inserting.schemas)
handle_insert_lem_example =
    handle_insert_lem insert_world rows t ((number (53 ∷ []) ∷ []) ∷ (number (54 ∷ []) ∷ []) ∷ []) 1
      t_schema inserting (inserted_text ++ (to_decimal 2 ++ rows_text)) refl (omega arith)
      insert_succeeds

abbrev five : Row
five = ((97 ∷ []), (53 ∷ [])) ∷ []

-- Every row is read as `five`.
abbrev five_world : World
five_world = record leaf_world {
  row_codec = record { serialize = λ row. some []; deserialize = λ b. some five };
}

five_inserted :
    (handle_insert five_world rows t (values ((number (53 ∷ []) ∷ []) ∷ [])) 1 inserting).0
    ≡ ok (inserted_text ++ (to_decimal 1 ++ rows_text))
unfolding handle_insert new_tier open_wal insert make_room enqueue flush_pipeline to_decimal
five_inserted = refl

two_found :
    (scan_table five_world rows t 1
      (handle_insert five_world rows t (values ((number (53 ∷ []) ∷ []) ∷ [])) 1 inserting).1).0
    ≡ ok (row_of t (row_key t 0) five ∷ row_of t t1 five ∷ [])
unfolding handle_insert new_tier open_wal insert make_room enqueue flush_pipeline to_decimal
    scan_table row_of row_key
two_found = refl

scan_table-handle_insert_example :
    Memᴰ (row_of t (row_key t 0) five) (row_of t (row_key t 0) five ∷ row_of t t1 five ∷ [])
scan_table-handle_insert_example =
    scan_table-handle_insert five_world rows t t_schema 1 1 (number (53 ∷ []) ∷ []) inserting []
      (inserted_text ++ (to_decimal 1 ++ rows_text)) five
      (row_of t (row_key t 0) five ∷ row_of t t1 five ∷ []) faithful (omega arith, tt) refl refl
      refl refl five_inserted (omega arith) two_found
