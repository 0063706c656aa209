-- ===== src/Lib.antt =====
-- KSSQL, a small SQL server over a paged B+ tree with a write-ahead log and a cache in memory.
--
-- The program. `src/parser/engine.rs` executes SQL: it reads from the memory tier and then from the
-- B+ tree, and writes to the memory tier and to the queue of the write-ahead log. `src/network/server.rs`
-- hands it the statements of TCP and HTTP clients. `src/storage/btree.rs` keeps its nodes in the pages
-- of `src/storage/pager.rs`, and puts each page that it saves in the queue of `src/storage/wal.rs`; when
-- the tree is opened, the entries that the log recovered go back to the pages and to the memory tier of
-- `src/storage/mod.rs`.
--
-- The files.
-- Common: the names and lemmas that all share; lists over the native ℕ (Common/Lists), maps as
-- association lists in the order of their iteration (Common/Dict), bytes and their order
-- (Common/Eq, Common/Order), strings as their UTF-8 bytes (Common/Text) or as their code points (Common/Str), little-endian words (Common/Words), errors (Common/Result) and methods
-- that change a state and may fail (Common/Exec). An error keeps what was written before it.
-- Storage/Codec: bincode, as an interface.
-- Storage/Wal/Frame, Recover, Queue, Writer, Enqueue: `src/storage/wal.rs`. `recover` is the loop of
-- `Wal::open`, `open_wal` its result, `write_batch` and `write_all` its thread; `fill` is the loop of
-- `flush_pipeline`. RoundTrip, Flush, Durability and Loss have the theorems.
-- Storage/MemoryTier: `MemoryTier` of `src/storage/mod.rs`; the clock is an argument of `insert`.
-- Storage/Hardware: `HardwareManager` and `get_hit_ratio` of the same file.
-- Storage/Pager: `src/storage/pager.rs`; a request and its answer are one call, as each caller waits for
-- the answer and the thread serves one request after the other.
-- Storage/Btree/Node, Store, Tree: `src/storage/btree.rs`; `Store` is what the tree needs of the
-- pages, `get_loop` is the loop of `get`, and `leaf_insert` the leaf's case of `insert_non_full`.
-- Tree/Leaf, Halves and Split have the theorems on one leaf, Tree/Route, Written and Insertion those on the
-- way of a key from the root to its leaf, and Tree/RootSplit and RootInsertion those on a full root that is a
-- leaf.
-- Storage/Btree/Cached is `BPlusTree` with its log and its tier.
-- Storage/Btree/Pages: the same interface filled by the pager and the queue of the log, `node_store`, with
-- `save_node` and `allocate_page`. Storage/Btree/Open: `open_tree` is `BPlusTree::open`, from the entries that
-- the walk over the log recovered; `drain_round` is a turn of the drain thread in `src/parser/engine.rs`.
-- Pages/SaveNode, Sound and Lawful, Open/Replay, Restored, Logged and Drained have the theorems. Open/Race has
-- the two threads of an opening.
-- Engine/State, Transactions: `src/parser/engine.rs`. `begin`, `commit` and `rollback` are the branches
-- of `execute`, `check_updates` and `write_updates` the loops of COMMIT, and `write_row` is how
-- `handle_update` and `handle_delete` write a row. `World` has what the engine runs on: the pages, the
-- serialization, the clock, the random numbers and the other threads. Filter is `evaluate_where`.
-- Engine/Rows, Scan: `scan_table_with_filter`. Its index lookup is `index_lookup`, and its two loops share
-- the body `scan_entry`. Scan/Reference says what a scan shows, without its loops.
-- Engine/Statements, Insert, Tables, Query, Call, Execute, Search, Commands: `handle_update` and `handle_delete`,
-- which share their course; `handle_insert`; CREATE TABLE; `handle_query`; CALL and `call_wasm`; the retries and
-- `execute_statement`; `universal_search` and FLUSH; `execute`, from the text to the answer. Engine/Output
-- is what `handle_query` prints; the numbers of its aggregates are the interface `Floats`. Engine/Start:
-- `Engine::new` on an opened tree.
-- Compare, Refusal, Commit, FirstWins, Isolated, Scan/Leaves, Statements/Rewritten, Answered and Buffered, Insert/Counts, Insert/Shown,
-- Scan/Shows, Query/Limit, Tables/Created, Start/Schemas, Start/Logged, Execute/Retry, Search/Dropped and
-- Commands/Others have the theorems.
-- Network/Session: `handle_tcp_connection` of `src/network/server.rs`, with the engine as a
-- parameter. `handle_line` is a turn of its loop. Network/Connections: the clients that connect to `Server::run`
-- and send their lines in any order. Handlers has the handlers of the HTTP requests, and in Router `serve` has the ten routes;
-- Hotswap has the one that replaces the database. Network/Database fills the parameter with `execute` of the
-- engine. Metrics: the websocket, `handle_ws`, a turn of its loop being a message or a tick together with whether
-- its send succeeds. Guard, Access, Login, Connections/Numbered and Relayed have theorems. Arguments: the ports and the
-- path of the log in `src/main.rs`; Main: `main` from the arguments to the server that listens.
--
-- Fuel. `recover` walks the log with one more step than the log has bytes, and each turn moves
-- forward by one at least. `enqueue_loop` has the 1,002 attempts of the source. `get_loop` and
-- `insert_non_full` take the depth of the tree as fuel, and answer `out_of_fuel` below it. A scan goes
-- down `World.depth` pages and walks `World.chain` leaves, as many as there are; `universal_search` has the
-- number of pages as an argument, in `execute` the sum of the two. In a chain with a circle the source runs on. `retry` has the 5 retries.
--
-- Not modelled: the memory of `AlignedBuf`, TLS and the sockets, the banner of `src/main.rs` and the binaries of `src/bin`; and
-- `cosine_similarity`, which nothing calls. A websocket that lags behind the broadcast by more than 100 messages
-- loses some; which ones it receives is part of its turns. The engine runs on any pages: `World` says how the queue of
-- the log, which the pages and the engine share, is read and set in them. The upper case of a text is exact
-- as far as it is compared with text of ASCII. Between two steps of one task the source's other threads may
-- run; only `enqueue` has them as a parameter, and the connections take turns by whole lines. The map of a row
-- and the other maps are iterated in the order of their entries.
pub mod Common
pub mod Storage
pub mod Engine
pub mod Network
