-- ===== src/Engine/Search/Dropped.antt =====
-- src/parser/engine.rs: what FLUSH does with the queue.
use kssql.Common.{◌≡◌, refl, List, [], ◌++◌, arith}
use kssql.Storage.Wal.Frame.{WalEntry, frames}
use kssql.Storage.Wal.Queue.{fill}
use kssql.Storage.Wal.Flush.{IsSettled, sent, taken, fill_lem, flush_pipeline_lem}
use kssql.Engine.State.{Engine, World}
use kssql.Engine.Search.{flush_command}

module _ (world : World) where
  open world use {store, entries}

  -- FLUSH on a settled log splits the queue in two: the entries of one batch, which is sent to the
  -- writer thread, and the entries after it, which go nowhere. The queue is empty then.
  pub flush_command_lem :
      (engine : Engine store)
      → IsSettled engine.btree.wal
      → let wal = engine.btree.wal in
        let wal' = (flush_command world engine).btree.wal in
        let batch = taken entries wal.batch_limit wal.queue [] in
        (dropped : List WalEntry) × (batch ++ dropped ≡ wal.queue)
        × (wal'.requests ≡ wal.requests ++ sent (frames entries batch))
        × (wal'.queue ≡ [])
        × IsSettled wal'
  unfolding flush_command
  flush_command_lem engine settled =
      let wal = engine.btree.wal in
      let (after, left, requests, limit) = flush_pipeline_lem entries wal settled in
      (
        (fill entries wal.batch_limit wal.queue []).1,
        (fill_lem entries wal.batch_limit wal.queue []).0,
        requests,
        refl,
        record { empty_a = after.empty_a; empty_b = after.empty_b; within = omega arith },
      )
