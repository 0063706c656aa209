-- ===== src/Network/DatabaseTests.antt =====
-- src/network/server.rs: clients of the engine, and a hot swap.
use kssql.Common.{inl, List, [], ◌∷◌, ◌++◌, refl, ◌≡◌, ◌⊎◌, none, some, true, arith}
use kssql.Common.Str.{Text}
use kssql.Engine.Output.{Floats}
use kssql.Engine.Call.{Host}
use kssql.Engine.Commands.{execute, command_of, search_query, search_word, search, flush}
use kssql.Engine.Tests.{rows, world, both, writes}
use kssql.Storage.MemoryTier
use kssql.Storage.MemoryTier.{new_tier}
use kssql.Storage.Wal.Queue.{open_wal}
use kssql.Storage.Pager.Tests.{test_disk}
use kssql.Network.Hotswap.{Web, Database, hotswap_handler, hotswap_handler_lem}
use kssql.Network.Session.{Service}
use kssql.Network.Connections.{
  Event, accept, line_from, web_query, Running, start_listening, run_events,
}
use kssql.Network.Connections.Numbered.{start_listening-IsNumbered}
use kssql.Network.Database.{engine_service, transaction_of, transaction-run_events}

abbrev pub no_floats : Floats
no_floats = record {
  Float = Unit {0};
  parse = λ b. none;
  print = λ x. [];
  of_count = λ n. tt;
  empty_sum = tt;
  add = λ x y. tt;
  divide = λ x y. tt;
  minimum = λ x y. tt;
  maximum = λ x y. tt;
  infinity = tt;
  neg_infinity = tt;
}

-- Nothing can be read.
abbrev pub no_host : Host
no_host = record {
  read_file = λ path. inl [];
  Module = Unit {0};
  Instance = Unit {0};
  Func = Unit {0};
  new_module = λ b. inl [];
  start_instance = λ m. inl [];
  get_typed_func = λ i name. inl [];
  call = λ f. inl [];
}

-- "AUTH u:p" and "rollback"
abbrev login : Text
login = 65 ∷ 85 ∷ 84 ∷ 72 ∷ 32 ∷ 117 ∷ 58 ∷ 112 ∷ 10 ∷ []

abbrev roll_back : Text
roll_back = 114 ∷ 111 ∷ 108 ∷ 108 ∷ 98 ∷ 97 ∷ 99 ∷ 107 ∷ 10 ∷ []

-- Two clients connect; the second logs in and rolls back, and a query comes from the web.
abbrev events : List Event
events =
    accept
    ∷ accept
    ∷ line_from 1 login
    ∷ web_query (some (117 ∷ 58 ∷ 112 ∷ [])) roll_back
    ∷ line_from 1 roll_back
    ∷ []

abbrev service : Service
service = engine_service (λ e. []) no_host (λ sql. inl []) no_floats world rows

-- The first client's id has an open transaction.
abbrev listening : Running service
listening =
    start_listening service
      (record both { active_transactions = (1000, writes 11) ∷ (1001, writes 12) ∷ [] })

both_connect :
    (run_events service (117 ∷ []) (112 ∷ []) events listening).engine.active_transactions
    ≡ (1000, writes 11) ∷ []
unfolding run_events start_listening execute
both_connect = refl

transaction-run_events_example :
    transaction_of
      (λ e. [])
      no_host
      (λ sql. inl [])
      no_floats
      world
      rows
      0
      (run_events service (117 ∷ []) (112 ∷ []) events listening)
    ≡ transaction_of (λ e. []) no_host (λ sql. inl []) no_floats world rows 0 listening
unfolding start_listening
transaction-run_events_example =
    transaction-run_events (λ e. []) no_host (λ sql. inl []) no_floats world rows (117 ∷ [])
      (112 ∷ []) 0 events listening (start_listening-IsNumbered service _) (omega arith)
      (tt, (tt, ((λ e. absurd (omega (arith, e))), (tt, ((λ e. absurd (omega (arith, e))), tt)))))

-- A web where every download succeeds and no file can be opened afterwards.
abbrev web : Web test_disk
web = record {
  Files = Unit {0};
  url_of = λ body. some body;
  download = λ url. some [];
  write_file = λ path bytes files. (true, files);
  rename = λ from to files. files;
  open_at = λ path files. none;
}

abbrev database : Database test_disk web world.entries
database = record {
  db_path = [];
  files = tt;
  pager = record { file = []; file_length = 0 };
  wal = open_wal [];
  memory_tier = record (new_tier 1) { cache = ((7 ∷ []), (8 ∷ [])) ∷ [] };
}

hotswap_handler_lem_example :
    ((MemoryTier.get
        (7 ∷ [])
        (hotswap_handler test_disk web world.entries true [] database).1.memory_tier).0
      ≡ some (8 ∷ []))
    × (((file : test_disk.File) × (web.open_at []
              (hotswap_handler test_disk web world.entries true [] database).1.files
            ≡ some file)
          × ((hotswap_handler test_disk web world.entries true [] database).1.pager
              ≡ record { file = file; file_length = test_disk.size file }))
        ⊎ ((web.open_at [] (hotswap_handler test_disk web world.entries true [] database).1.files
              ≡ none)
            × ((hotswap_handler test_disk web world.entries true [] database).1.pager
                ≡ database.pager)))
unfolding hotswap_handler
hotswap_handler_lem_example =
    hotswap_handler_lem test_disk web world.entries true [] database (7 ∷ []) (8 ∷ []) refl refl

-- "search x" is a search, for the whole text; "SEARCH x" is one for "x".
abbrev lower_search : Text
lower_search = 115 ∷ 101 ∷ 97 ∷ 114 ∷ 99 ∷ 104 ∷ 32 ∷ 120 ∷ []

lower_is_search : command_of lower_search ≡ search
unfolding command_of
lower_is_search = refl

lower_searches : search_query lower_search ≡ lower_search
unfolding search_query
lower_searches = refl

upper_searches : search_query (search_word ++ 32 ∷ 120 ∷ []) ≡ 120 ∷ []
unfolding search_query
upper_searches = refl

-- The ligature `ﬂ` stands for two letters of "FLUSH".
ligature_flushes : command_of (64258 ∷ 117 ∷ 115 ∷ 104 ∷ []) ≡ flush
unfolding command_of
ligature_flushes = refl
