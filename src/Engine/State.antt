-- ===== src/Engine/State.antt =====
-- src/parser/engine.rs: the engine's state, and the reads and writes that its handlers share.
use kssql.Common.{ℕ, ◌+◌, ◌-◌, ◌%◌, ◌^◌, Option, none, some, List, Bytes, bytes_equality}
use kssql.Common.Int.{ℤ, pos, negsuc}
use kssql.Common.Dict.{Dict}
use kssql.Common.Result.{Result, ok, err, out_of_fuel}
use kssql.Common.Exec.{Exec}
use kssql.Storage.Codec.{Codec}
use kssql.Storage.Btree.Store.{Store}
use kssql.Storage.Btree.Tree.{insert}
use kssql.Storage.Btree.Cached
use kssql.Storage.Btree.Cached.{BPlusTree}
use kssql.Storage.MemoryTier
use kssql.Storage.Wal.Frame.{WalEntry}
use kssql.Storage.Wal.Queue.{flush_pipeline}
use kssql.Storage.Wal.Enqueue.{enqueue}

pub record Transaction : Type 0 where
  pub id : ℕ
  pub snapshot_version : ℕ
  pub updates : Dict Bytes Bytes

pub record TableSchema : Type 0 where
  pub name : Bytes
  pub columns : List Bytes
  pub auto_increment_col : Option Bytes
  pub next_id : ℕ

pub record IndexSchema : Type 0 where
  pub name : Bytes
  pub table_name : Bytes
  pub column : Bytes

-- `ticks` counts the readings of the clock, and `draws` the random numbers that were drawn.
pub record Engine (store : Store) : Type 0 where
  pub btree : BPlusTree store
  pub current_version : ℕ
  pub active_transactions : Dict ℕ Transaction
  pub schemas : Dict Bytes TableSchema
  pub indices : Dict Bytes IndexSchema
  pub ticks : ℕ
  pub draws : ℕ

-- What the engine runs on: the pages, how deep a lookup goes in them and how
-- many leaves a scan walks, bincode for the entries of the
-- log, the columns of a row and the map of the schemas, the clock (the value of each reading, in the
-- unit that is asked for), the random numbers, and what the other threads do to the
-- queue while `enqueue` sleeps. Saving a page puts it in the queue of the log too, which is the one that the
-- engine has: `page_log` is this queue as the pages have it, and `with_page_log` sets it.
pub record World : Type 1 where
  pub store : Store
  pub depth : ℕ
  pub chain : ℕ
  pub entries : Codec WalEntry
  pub row_codec : Codec (Dict Bytes Bytes)
  pub schema_codec : Codec (Dict Bytes TableSchema)
  pub clock : ℕ → ℤ
  pub random : ℕ → ℕ
  pub others : ℕ → List WalEntry → List WalEntry
  pub page_log : store.State → List WalEntry
  pub with_page_log : List WalEntry → store.State → store.State

-- `as u64`
abbrev pub as_u64 : ℤ → ℕ
as_u64 (pos n) = n % 2 ^ 64
as_u64 (negsuc n) = 2 ^ 64 - 1 - n % 2 ^ 64

abbrev pub next_version : ℕ → ℕ
next_version version = (version + 1) % 2 ^ 64

module _ (world : World) where
  open world use {store, depth, entries, clock, others, page_log, with_page_log}

  unfoldable pub btree_get : Bytes → Exec (Engine store) (Option Bytes)
  unfolding Cached.get
  btree_get key engine =
      let (r, tree) = Cached.get store depth key engine.btree in (r, record engine { btree = tree })

  -- The memory tier, and behind it the tree, which asks the tier once more.
  unfoldable pub read_current : Bytes → Exec (Engine store) (Option Bytes)
  unfolding btree_get
  read_current key engine =
      let (hit, tier) = MemoryTier.get key engine.btree.memory_tier in
      let engine' = record engine { btree = record engine.btree { memory_tier = tier } } in
      elim hit [ some value ↦ (ok (some value), engine') | none ↦ btree_get key engine' ]

  unfoldable pub tier_insert : Bytes → Bytes → Engine store → Engine store
  tier_insert key value engine =
      let tier = MemoryTier.insert (clock engine.ticks) key value engine.btree.memory_tier in
      record engine { btree = record engine.btree { memory_tier = tier }; ticks = engine.ticks + 1 }

  abbrev pub with_queue : Engine store → List WalEntry → Engine store
  with_queue engine queue = record engine {
    btree = record engine.btree { wal = record engine.btree.wal { queue = queue } };
  }

  abbrev pub queued : Option (Result (List WalEntry)) → Exec (Engine store) (Unit {0})
  queued none engine = (err out_of_fuel, engine)
  queued (some (err e)) engine = (err e, engine)
  queued (some (ok queue)) engine = (ok tt, with_queue engine queue)

  -- The pages, with the queue that the tree shares with the engine.
  abbrev pub shared_pages : Engine store → store.State
  shared_pages engine = with_page_log engine.btree.wal.queue engine.btree.pages

  -- `btree.insert`
  unfoldable pub btree_insert : Bytes → Bytes → Exec (Engine store) (Unit {0})
  unfolding insert
  btree_insert key value engine =
      let (r, pages) = insert store depth 0 key value (shared_pages engine) in
      (
        r,
        with_queue (record engine { btree = record engine.btree { pages = pages } })
            (page_log pages),
      )

  unfoldable pub wal_enqueue : WalEntry → Exec (Engine store) (Unit {0})
  wal_enqueue entry engine = queued (enqueue others entry engine.btree.wal.queue) engine

  unfoldable pub wal_flush : Exec (Engine store) (Unit {0})
  wal_flush engine = (
    ok tt,
    record engine { btree = record engine.btree { wal = flush_pipeline entries engine.btree.wal } },
  )

  -- `current_version.fetch_add(1) + 1`
  unfoldable pub bump_version : Exec (Engine store) ℕ
  bump_version engine =
      let version = next_version engine.current_version in
      (ok version, record engine { current_version = version })
