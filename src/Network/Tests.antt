-- ===== src/Network/Tests.antt =====
-- src/network/server.rs: a run of a session, and the theorem at a concrete input.
use kssql.Common.{ℕ, ◌+◌, ◌≡◌, ◌⊎◌, refl, true, false, [], ◌∷◌, ◌++◌}
use kssql.Common.Str.{Text, trim}
use kssql.Network.Session.{
  Service, authenticated, auth_required, is_login, auth_prefix, new_session, handle_tcp_connection,
}
use kssql.Common.{some, none}
use kssql.Storage.MemoryTier.{new_tier}
use kssql.Network.Handlers.{Backend, App, success}
use kssql.Network.Router.{Site, dashboard, hotswap, serve}
use kssql.Network.Hotswap.{Web}
use kssql.Storage.Codec.{Codec}
use kssql.Storage.Wal.Frame.{WalEntry}
use kssql.Storage.Wal.Queue.{open_wal}
use kssql.Storage.Pager.Tests.{test_disk}
use kssql.Network.Access.{IsControlled, serve_lem}
use kssql.Network.Guard.{run_all, session_lem}

-- A service that counts and echoes.
abbrev echo : Service
echo = record { State = ℕ; execute = λ text conn_id n. (text, n + 1) }

-- "AUTH u:p", with a newline
abbrev login : Text
login = auth_prefix ++ 117 ∷ 58 ∷ 112 ∷ 10 ∷ []

-- A repeated prefix is taken off as well.
twice : is_login (117 ∷ []) (112 ∷ []) (trim (auth_prefix ++ login)) ≡ true
unfolding is_login trim
twice = refl

logged :
    (handle_tcp_connection echo
      (117 ∷ [])
      (112 ∷ [])
      1000
      (login ∷ (88 ∷ []) ∷ [])
      (new_session echo 0)).engine
    ≡ 1
unfolding handle_tcp_connection new_session
logged = refl

session_lem_example :
    ((is_login (117 ∷ []) (112 ∷ []) (trim (88 ∷ [])) ≡ false)
      × (handle_tcp_connection echo
            (117 ∷ [])
            (112 ∷ [])
            1000
            ((88 ∷ []) ∷ login ∷ [])
            (new_session echo 0)
          ≡ record (new_session echo 0) { replies = auth_required ∷ []; closed = true }))
    ⊎ ((is_login (117 ∷ []) (112 ∷ []) (trim (88 ∷ [])) ≡ true)
        × ((handle_tcp_connection echo
              (117 ∷ [])
              (112 ∷ [])
              1000
              ((88 ∷ []) ∷ login ∷ [])
              (new_session echo 0)).engine
            ≡ (run_all echo 1000 (login ∷ []) 0).0)
        × ((handle_tcp_connection echo
              (117 ∷ [])
              (112 ∷ [])
              1000
              ((88 ∷ []) ∷ login ∷ [])
              (new_session echo 0)).replies
            ≡ authenticated ∷ (run_all echo 1000 (login ∷ []) 0).1))
session_lem_example = session_lem echo (117 ∷ []) (112 ∷ []) 1000 (88 ∷ []) (login ∷ []) 0

abbrev test_backend : Backend
test_backend = record {
  State = ℕ;
  execute = λ text conn_id n. (success text, n + 1);
  undo = λ n. n;
  redo = λ n. n;
  read_database = λ n. [];
  turbo_of = λ body. none;
  limit_mb_of = λ body. none;
}

abbrev test_app : App test_backend
test_app = record { engine = 0; memory_tier = new_tier 1; broadcast = [] }

-- No download succeeds, and the hot swap sets the memory tier alone.
abbrev no_web : Web test_disk
no_web = record {
  Files = Unit {0};
  url_of = λ body. some body;
  download = λ url. none;
  write_file = λ path bytes files. (true, files);
  rename = λ from to files. files;
  open_at = λ path files. none;
}

abbrev no_entries : Codec WalEntry
no_entries = record { serialize = λ e. none; deserialize = λ b. none }

abbrev test_site : Site
test_site = record {
  backend = test_backend;
  disk = test_disk;
  web = no_web;
  entries = no_entries;
  dashboard_html = [];
  upgrade = record { status = 101; body = [] };
  database_of = λ app. record {
    db_path = [];
    files = tt;
    pager = record { file = []; file_length = 0 };
    wal = open_wal [];
    memory_tier = app.memory_tier;
  };
  with_database = λ db app. record app { memory_tier = db.memory_tier };
  set_same = λ app. refl;
}

-- A hot swap without a header.
serve_lem_example : IsControlled test_site (117 ∷ []) (112 ∷ []) none (hotswap (88 ∷ [])) test_app
serve_lem_example = serve_lem test_site (117 ∷ []) (112 ∷ []) none (hotswap (88 ∷ [])) test_app

refused_swap :
    (serve test_site (117 ∷ []) (112 ∷ []) none (hotswap (88 ∷ [])) test_app).0.status ≡ 401
unfolding serve
refused_swap = refl

open_page : (serve test_site (117 ∷ []) (112 ∷ []) none dashboard test_app).0.status ≡ 200
unfolding serve
open_page = refl
