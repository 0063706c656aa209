-- ===== src/Network/Main.antt =====
-- src/main.rs: `main`, from the arguments to the server that listens, on src/parser/engine.rs and
-- src/network/server.rs.
use kssql.Common.{
  ◌≡◌, ◌≢◌, bytes_eq, bytes_eq_iff, refl, ap, sym, subst, ◌∙◌, Option-cases, false, Bool-cases,
  Option, none, some, List, [], ◌∷◌, Bytes, All, arith, nat_equality, ==_iff, ℕ, inl, inr, ◌⊎◌,
}
use kssql.Common.Dict
use kssql.Common.Dict.{get-insert}
use kssql.Common.Result.{Result, Result-cases, Error, ok, err}
use kssql.Common.Str.{Text, trim}
use kssql.Storage.Codec.{Codec}
use kssql.Storage.Btree.Node.{Record}
use kssql.Storage.Btree.Cached.{BPlusTree}
use kssql.Engine.State.{World}
use kssql.Engine.Output.{Floats}
use kssql.Engine.Call.{Host}
use kssql.Engine.Execute.{Parsed}
use kssql.Engine.Start.{new_engine}
use kssql.Network.Arguments.{Settings, default_settings, read_ports, wal_path}
use kssql.Network.Session.{Service, credentials, is_login, handle_line}
use kssql.Network.Handlers.{check_auth}
use kssql.Network.Login.{Contains, is_login-Contains}
use kssql.Network.Connections.{
  Client, Event, accept, line_from, web_query, new_client, Running, start_listening, session_of,
  client_of, serve_line, handle_event, run_events,
}
use kssql.Network.Database.{engine_service, otherwise}

pub record Args : Type 0 where
  pub port : List Bytes
  pub db : Bytes
  pub user : Bytes
  pub password : Bytes

-- How `main` starts: an argument is no port, the database cannot be opened, or the server listens on these
-- ports.
pub data Started (service : Service) : Type 0 where
  bad_port : Started service
  not_started : Error → Started service
  listening : Settings → Running service → Started service

-- The event is no line that contains the user's name and password with a colon between them, and no request
-- whose header is just that.
abbrev pub IsKnock : Text → Text → Event → Type 0
IsKnock user pass accept = Unit
IsKnock user pass (line_from n text) = ¬ Contains (credentials user pass) text
IsKnock user pass (web_query header body) = header ≢ some (credentials user pass)

not_login :
    (user pass text : Text)
    → ¬ Contains (credentials user pass) text
    → is_login user pass (trim text) ≡ false
not_login user pass text absent = elim (Bool-cases (is_login user pass (trim text))) [
  | inl login ↦ absurd (absent (is_login-Contains user pass text login))
  | inr refused ↦ refused
]

not_allowed :
    (user pass : Text) (header : Option Text)
    → header ≢ some (credentials user pass)
    → check_auth header user pass ≡ false
unfolding check_auth
not_allowed user pass none differs = refl
not_allowed user pass (some h) differs = elim (Bool-cases (bytes_eq h (credentials user pass))) [
  | inl same ↦ absurd (differs (ap some ((bytes_eq_iff h (credentials user pass)).0 same)))
  | inr other ↦ other
]

module _ (service : Service) where
  -- No client has authenticated, and the engine and the broadcast are these.
  record IsOutside (engine : service.State) (broadcast : List Text) (running : Running service)
      : Type 0 where
    nobody :
        (n : ℕ) (client : Client)
        → Dict.get running.clients n ≡ some client
        → client.authenticated ≡ false
    engine_same : running.engine ≡ engine
    broadcast_same : running.broadcast ≡ broadcast

  serve_line-IsOutside :
      (user pass : Text) (n : ℕ) (text : Text) (engine : service.State) (broadcast : List Text)
      (running : Running service) (client : Option Client)
      → Dict.get running.clients n ≡ client
      → is_login user pass (trim text) ≡ false
      → IsOutside engine broadcast running
      → IsOutside engine broadcast (serve_line service user pass n text client running)
  unfolding serve_line handle_line
  serve_line-IsOutside user pass n text engine broadcast running none at refused outside = outside
  serve_line-IsOutside user pass n text engine broadcast running (some client) at refused outside =
      let still = outside.nobody n client at in
      elim (Bool-cases client.closed) [
        | inl ended ↦ rw (serve_line, ended) outside
        | inr goes_on ↦
            let session =
              handle_line service user pass client.conn_id text
                (session_of service client running) in
            let client' = client_of service client.conn_id session in
            let running' : Running service = record running {
              engine = session.engine;
              clients = Dict.insert running.clients n client';
              broadcast = session.broadcast;
            } in
            let unknown : session.authenticated ≡ false = rw (handle_line, still, refused) refl in
            let kept : session.engine ≡ running.engine = rw (handle_line, still, refused) refl in
            let heard : session.broadcast ≡ running.broadcast =
              rw (handle_line, still, refused) refl in
            subst (IsOutside engine broadcast)
              (sym (otherwise client.closed running running' goes_on))
              (record {
                nobody = λ m other found. ground (
                  arith,
                  outside.nobody m other,
                  unknown,
                  get-insert running.clients n m client',
                  ==_iff n m,
                  found,
                );
                engine_same = kept ∙ outside.engine_same;
                broadcast_same = heard ∙ outside.broadcast_same;
              })
      ]

  handle_event-IsOutside :
      (user pass : Text) (event : Event) (engine : service.State) (broadcast : List Text)
      (running : Running service)
      → IsKnock user pass event
      → IsOutside engine broadcast running
      → IsOutside engine broadcast (handle_event service user pass event running)
  unfolding handle_event
  handle_event-IsOutside user pass accept engine broadcast running knock outside = record {
    nobody = λ m other found. ground (
      arith,
      outside.nobody m other,
      get-insert running.clients running.accepted m (new_client running.next_conn_id),
      ==_iff running.accepted m,
      found,
    );
    engine_same = outside.engine_same;
    broadcast_same = outside.broadcast_same;
  }
  handle_event-IsOutside user pass (line_from n text) engine broadcast running knock outside =
      serve_line-IsOutside user pass n text engine broadcast running (Dict.get running.clients n)
        refl (not_login user pass text knock) outside
  handle_event-IsOutside user pass (web_query header body) engine broadcast running knock outside =
      rw (handle_event, not_allowed user pass header knock) outside

  run_events-IsOutside :
      (user pass : Text) (events : List Event) (engine : service.State) (broadcast : List Text)
      (running : Running service)
      → All (λ e. IsKnock user pass e) events
      → IsOutside engine broadcast running
      → IsOutside engine broadcast (run_events service user pass events running)
  unfolding run_events
  run_events-IsOutside user pass [] engine broadcast running knocks outside = outside
  run_events-IsOutside user pass (event ∷ events) engine broadcast running knocks outside =
      run_events-IsOutside user pass events engine broadcast
        (handle_event service user pass event running) knocks.1
        (handle_event-IsOutside user pass event engine broadcast running knocks.0 outside)

module _ (message : Error → Bytes) (host : Host) (parse_sql : Text → Bytes ⊎ List Parsed)
    (floats : Floats) (world : World) (records : Codec Record) (versions : Codec ℕ) where
  open world use {store}

  abbrev pub service : Service
  service = engine_service message host parse_sql floats world records

  abbrev pub start_on : Settings → Result (BPlusTree store) → Started service
  start_on settings (err e) = not_started e
  start_on settings (ok btree) =
      let (r, engine) = new_engine world records versions btree in
      elim r [ err e ↦ not_started e | ok u ↦ listening settings (start_listening service engine) ]

  -- `open_btree` is `BPlusTree::open` with the paths of the file and of the log.
  unfoldable pub main : (Bytes → Bytes → Result (BPlusTree store)) → Args → Started service
  unfolding new_engine start_listening wal_path read_ports
  main open_btree args = elim (read_ports args.port default_settings) [
    | none ↦ bad_port
    | some settings ↦ start_on settings (open_btree args.db (wal_path args.db))
  ]

  start_on-listening :
      (settings settings' : Settings) (running : Running service)
      (opened : Result (BPlusTree store))
      → start_on settings' opened ≡ listening settings running
      → (btree : BPlusTree store) × (opened ≡ ok btree)
        × ((new_engine world records versions btree).0 ≡ ok tt)
        × (running ≡ start_listening service (new_engine world records versions btree).1)
  start_on-listening settings settings' running (err e) h = absurd (ground (arith, h))
  start_on-listening settings settings' running (ok btree) h =
      elim (Result-cases (new_engine world records versions btree).0) [
        | inl (u, done) ↦ (btree, refl, done, ground (arith, h, done))
        | inr (e, bad) ↦ absurd (ground (arith, h, bad))
      ]

  -- A server that listens after `main` runs on an engine that `new_engine` made of the opened tree, and has no
  -- client.
  main-listening :
      (open_btree : Bytes → Bytes → Result (BPlusTree store)) (args : Args) (settings : Settings)
      (running : Running service)
      → main open_btree args ≡ listening settings running
      → (btree : BPlusTree store) × (open_btree args.db (wal_path args.db) ≡ ok btree)
        × ((new_engine world records versions btree).0 ≡ ok tt)
        × (running ≡ start_listening service (new_engine world records versions btree).1)
  unfolding main
  main-listening open_btree args settings running h =
      elim (Option-cases (read_ports args.port default_settings)) [
        | inl bad ↦ absurd (ground (arith, h, bad))
        | inr (settings', good) ↦
            start_on-listening settings settings' running (open_btree args.db (wal_path args.db))
              (ground (arith, h, good))
      ]

  -- If the server listens after `main`, then whatever lines TCP clients send to it and whatever queries come by
  -- POST to /api/query, in whatever order, where no line contains the user's name and password with a colon
  -- between them, and no request has just that as its header: the engine stays as it was started on the
  -- database, nothing is broadcast, and no client is authenticated.
  pub main-run_events :
      (open_btree : Bytes → Bytes → Result (BPlusTree store)) (args : Args) (settings : Settings)
      (running : Running service) (events : List Event)
      → main open_btree args ≡ listening settings running
      → All (λ e. IsKnock args.user args.password e) events
      → (btree : BPlusTree store) × (open_btree args.db (wal_path args.db) ≡ ok btree)
        × ((run_events service args.user args.password events running).engine
            ≡ (new_engine world records versions btree).1)
        × ((run_events service args.user args.password events running).broadcast ≡ [])
        × ((n : ℕ) (client : Client)
            → Dict.get (run_events service args.user args.password events running).clients n
              ≡ some client
            → client.authenticated ≡ false)
  unfolding start_listening
  main-run_events open_btree args settings running events starts knocks =
      let (btree, opened, done, same) = main-listening open_btree args settings running starts in
      let engine = (new_engine world records versions btree).1 in
      let at_first : IsOutside service engine [] (start_listening service engine) = record {
        nobody = λ n client h. absurd (cc h);
        engine_same = refl;
        broadcast_same = refl;
      } in
      let outside =
        run_events-IsOutside service args.user args.password events engine [] running knocks
          (subst (IsOutside service engine []) (sym same) at_first) in
      (btree, opened, outside.engine_same, outside.broadcast_same, outside.nobody)
