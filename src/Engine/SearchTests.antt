-- ===== src/Engine/SearchTests.antt =====
-- src/parser/engine.rs: FLUSH on a queue of two entries.
use kssql.Common.{ℕ, ◌≡◌, refl, List, [], ◌∷◌, ◌++◌, arith}
use kssql.Storage.Wal.Frame.{WalEntry, record_update, frame, frames}
use kssql.Common.Words.{to_le_bytes}
use kssql.Storage.Wal.Queue.{Wal, open_wal}
use kssql.Storage.Wal.Flush.{IsSettled, sent, taken}
use kssql.Engine.State.{Engine}
use kssql.Engine.Tests.{both, world, empty_store}
use kssql.Engine.Search.{flush_command}
use kssql.Engine.Search.Dropped.{flush_command_lem}

abbrev entry : ℕ → WalEntry
entry n = record_update (n ∷ []) []

-- A batch is full with its first entry.
abbrev two_queued : Wal
two_queued = record (open_wal []) { queue = entry 1 ∷ entry 2 ∷ []; batch_limit = 1 }

abbrev holding_two : Engine empty_store
holding_two = record both { btree = record both.btree { wal = two_queued } }

two_queued-IsSettled : IsSettled two_queued
unfolding open_wal
two_queued-IsSettled = record { empty_a = refl; empty_b = refl; within = omega arith }

takes_one : taken world.entries two_queued.batch_limit two_queued.queue [] ≡ entry 1 ∷ []
unfolding taken open_wal frame to_le_bytes
takes_one = refl

flush_command_lem_example :
    (dropped : List WalEntry) × (taken world.entries two_queued.batch_limit two_queued.queue []
        ++ dropped
      ≡ two_queued.queue)
    × ((flush_command world holding_two).btree.wal.requests
        ≡ two_queued.requests
          ++ sent (
              frames world.entries
                (taken world.entries two_queued.batch_limit two_queued.queue [])))
    × ((flush_command world holding_two).btree.wal.queue ≡ [])
    × IsSettled (flush_command world holding_two).btree.wal
flush_command_lem_example = flush_command_lem world holding_two two_queued-IsSettled
