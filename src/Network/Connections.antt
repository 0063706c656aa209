-- ===== src/Network/Connections.antt =====
-- src/network/server.rs: `Server::run` over time: clients connect, send lines in any order, and the HTTP
-- handler executes queries, all on one engine. The events are taken one after the other.
pub mod Numbered
use kssql.Common.{
  ℕ, ◌+◌, ◌%◌, ◌^◌, Bool, true, false, Option, none, some, List, [], ◌∷◌, ◌++◌, nat_equality,
  if◌then◌else◌,
}
use kssql.Common.Dict
use kssql.Common.Dict.{Dict}
use kssql.Common.Str.{Text}
use kssql.Network.Session.{Service, Session, Reply, handle_line}
use kssql.Network.Handlers.{check_auth}

-- A client that has connected: the id of its connection, whether it has authenticated, what was written back to it, and whether
-- its connection has ended.
pub record Client : Type 0 where
  pub conn_id : ℕ
  pub authenticated : Bool
  pub replies : List Reply
  pub closed : Bool

pub data Event : Type 0 where
  -- `accept`, which gives the connection the next id
  accept : Event
  -- a line that the client sends who connected as this one, counted from 0
  line_from : ℕ → Text → Event
  -- a POST to /api/query, with its header `Authorization` and its body
  web_query : Option Text → Text → Event

-- The id that the HTTP requests share.
abbrev pub web_conn_id : ℕ
web_conn_id = 999

abbrev pub new_client : ℕ → Client
new_client conn_id = record {
  conn_id = conn_id;
  authenticated = false;
  replies = [];
  closed = false;
}

module _ (service : Service) where
  pub record Running : Type 0 where
    pub engine : service.State
    -- how many clients have connected
    pub accepted : ℕ
    pub next_conn_id : ℕ
    pub clients : Dict ℕ Client
    pub broadcast : List Text

  unfoldable pub start_listening : service.State → Running
  start_listening engine = record {
    engine = engine;
    accepted = 0;
    next_conn_id = 1000;
    clients = [];
    broadcast = [];
  }

  abbrev pub session_of : Client → Running → Session service
  session_of client running = record {
    engine = running.engine;
    authenticated = client.authenticated;
    replies = client.replies;
    broadcast = running.broadcast;
    closed = client.closed;
  }

  abbrev pub client_of : ℕ → Session service → Client
  client_of conn_id session = record {
    conn_id = conn_id;
    authenticated = session.authenticated;
    replies = session.replies;
    closed = session.closed;
  }

  -- A turn of the loop of a client's task; a client that has left is not read from.
  unfoldable pub serve_line : Text → Text → ℕ → Text → Option Client → Running → Running
  unfolding handle_line
  serve_line user pass n text none running = running
  serve_line user pass n text (some client) running =
      let session = handle_line service user pass client.conn_id text (session_of client running) in
      if client.closed then running else record running {
        engine = session.engine;
        clients = Dict.insert running.clients n (client_of client.conn_id session);
        broadcast = session.broadcast;
      }

  -- The ids are of type `u32`, and wrap in a release build.
  unfoldable pub handle_event : Text → Text → Event → Running → Running
  unfolding serve_line check_auth
  handle_event user pass accept running = record running {
    next_conn_id = (running.next_conn_id + 1) % 2 ^ 32;
    accepted = running.accepted + 1;
    clients = Dict.insert running.clients running.accepted (new_client running.next_conn_id);
  }
  handle_event user pass (line_from n text) running =
      serve_line user pass n text (Dict.get running.clients n) running
  handle_event user pass (web_query header body) running =
      let (result, engine) = service.execute body web_conn_id running.engine in
      if check_auth header user pass
      then record running { engine = engine; broadcast = running.broadcast ++ body ∷ [] }
      else running

  unfoldable pub run_events : Text → Text → List Event → Running → Running
  unfolding handle_event
  run_events user pass [] running = running
  run_events user pass (event ∷ events) running =
      run_events user pass events (handle_event user pass event running)
