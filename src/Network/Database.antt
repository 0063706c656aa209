-- ===== src/Network/Database.antt =====
-- src/network/server.rs on src/parser/engine.rs: the server with the engine as what it serves.
use kssql.Common.{
  ℕ, ap, if◌then◌else◌, Bool, ◌+◌, ◌-◌, ◌^◌, ◌<◌, ◌≡◌, ◌≢◌, refl, ◌∙◌, Option, none, some, length,
  All, arith, nat_equality, ◌⊎◌, false, Bool-cases, List, [], ◌∷◌, Bytes, inl, inr,
}
use kssql.Common.Result.{Result, Error, ok, err}
use kssql.Common.Str.{Text, trim}
use kssql.Storage.Codec.{Codec}
use kssql.Storage.Btree.Node.{Record}
use kssql.Engine.State.{Engine, World}
use kssql.Engine.Output.{Floats}
use kssql.Engine.Call.{Host}
use kssql.Engine.Execute.{Parsed}
use kssql.Engine.Commands.{execute}
use kssql.Engine.Commands.Others.{execute-Isolated}
use kssql.Engine.Isolated.{KeepsOthers, KeepsOthers-refl, KeepsOthers-trans}
use kssql.Network.Session.{Service, Session, is_login, handle_line, handle_tcp_connection}
use kssql.Common.Dict
use kssql.Engine.State.{Transaction}
use kssql.Network.Connections.{
  Client, Event, accept, line_from, web_query, web_conn_id, Running, session_of, serve_line,
  handle_event, run_events,
}
use kssql.Network.Connections.Numbered.{IsNumbered, handle_event-IsNumbered}
use kssql.Network.Handlers.{error_text, check_auth}

-- The event is no line of the client who connected as number `k`.
abbrev pub IsNotFrom : ℕ → Event → Type 0
IsNotFrom k accept = Unit
IsNotFrom k (line_from n text) = n ≢ k
IsNotFrom k (web_query header body) = Unit

pub otherwise : {A : Type 0} (b : Bool) (x y : A) → b ≡ false → (if b then x else y) ≡ y
otherwise b x y h = rw h refl

-- `message` is how an error is printed.
module _ (message : Error → Bytes) (host : Host) (parse_sql : Text → Bytes ⊎ List Parsed)
    (floats : Floats) (world : World) (records : Codec Record) where
  open world use {store}

  -- what is written back for a result
  abbrev pub reply_text : Result Bytes → Bytes
  reply_text (ok res) = res
  reply_text (err e) = error_text (message e)

  abbrev pub engine_service : Service
  engine_service = record {
    State = Engine store;
    execute = λ line conn_id engine.
        let (r, engine') = execute host parse_sql floats world records line conn_id engine in
        (reply_text r, engine');
  }

  -- The transaction of the connection of the client who connected as number `k`.
  abbrev pub transaction_of : ℕ → Running engine_service → Option Transaction
  transaction_of k running = Dict.get running.engine.active_transactions (1000 + k)

  handle_line-KeepsOthers :
      (user pass : Text) (conn_id : ℕ) (line : Text) (session : Session engine_service)
      → KeepsOthers world conn_id session.engine
          (handle_line engine_service user pass conn_id line session).engine
  unfolding handle_line
  handle_line-KeepsOthers user pass conn_id line session = elim (Bool-cases session.authenticated) [
    | inl inside ↦
        rw (handle_line, inside)
          (execute-Isolated world conn_id floats records host parse_sql (trim line) session.engine)
    | inr outside ↦ elim (Bool-cases (is_login user pass (trim line))) [
      | inl accepted ↦
          rw (handle_line, outside, accepted) (KeepsOthers-refl world conn_id session.engine)
      | inr refused ↦
          rw (handle_line, outside, refused) (KeepsOthers-refl world conn_id session.engine)
    ]
  ]

  -- All lines of a client, until it leaves or is disconnected.
  pub session-KeepsOthers :
      (user pass : Text) (conn_id : ℕ) (lines : List Text) (session : Session engine_service)
      → KeepsOthers world conn_id session.engine
          (handle_tcp_connection engine_service user pass conn_id lines session).engine
  unfolding handle_tcp_connection
  session-KeepsOthers user pass conn_id [] session = KeepsOthers-refl world conn_id session.engine
  session-KeepsOthers user pass conn_id (line ∷ lines) session =
      let session' = handle_line engine_service user pass conn_id line session in
      let first = handle_line-KeepsOthers user pass conn_id line session in
      elim (Bool-cases session'.closed) [
        | inl ended ↦ rw (handle_tcp_connection, ended) first
        | inr goes_on ↦
            rw (handle_tcp_connection, goes_on)
              (KeepsOthers-trans world conn_id session.engine session'.engine _ first
                (session-KeepsOthers user pass conn_id lines session'))
      ]

  serve_line-kept :
      (user pass : Text) (n k : ℕ) (text : Text) (running : Running engine_service)
      → IsNumbered engine_service running
      → running.accepted < 2 ^ 32 - 1000
      → n ≢ k
      → (client : Option Client) → Dict.get running.clients n ≡ client
      → transaction_of k (serve_line engine_service user pass n text client running)
        ≡ transaction_of k running
  unfolding serve_line
  serve_line-kept user pass n k text running numbered few ne none at = refl
  serve_line-kept user pass n k text running numbered few ne (some client) at =
      let (below, same) = numbered.named n client at in
      elim (Bool-cases client.closed) [
        | inl ended ↦ rw (serve_line, ended) refl
        | inr goes_on ↦
            ap (transaction_of k) (otherwise client.closed running _ goes_on)
            ∙ (handle_line-KeepsOthers user pass client.conn_id text
                  (session_of engine_service client running)).kept
                (1000 + k) (λ e. ne (omega (arith, e, same, below, few)))
      ]

  event-kept :
      (user pass : Text) (k : ℕ) (event : Event) (running : Running engine_service)
      → IsNumbered engine_service running
      → running.accepted < 2 ^ 32 - 1000
      → IsNotFrom k event
      → transaction_of k (handle_event engine_service user pass event running)
        ≡ transaction_of k running
  unfolding handle_event
  event-kept user pass k accept running numbered few other = refl
  event-kept user pass k (line_from n text) running numbered few other =
      serve_line-kept user pass n k text running numbered few other (Dict.get running.clients n)
        refl
  event-kept user pass k (web_query header body) running numbered few other =
      elim (Bool-cases (check_auth header user pass)) [
        | inl allowed ↦
            rw (handle_event, allowed)
              ((execute-Isolated world web_conn_id floats records host parse_sql body
                  running.engine).kept
                (1000 + k) (λ e. absurd (omega (arith, e))))
        | inr refused ↦ rw (handle_event, refused) refl
      ]

  -- From a server whose clients are numbered in the order in which they connected, while fewer than
  -- 2 ^ 32 - 1000 have, whatever lines its clients send in whatever order, and whatever the HTTP handler
  -- executes: the open transaction of a client stays as it is as long as no line comes from this client.
  pub transaction-run_events :
      (user pass : Text) (k : ℕ) (events : List Event) (running : Running engine_service)
      → IsNumbered engine_service running
      → running.accepted + length events < 2 ^ 32 - 1000
      → All (λ e. IsNotFrom k e) events
      → transaction_of k (run_events engine_service user pass events running)
        ≡ transaction_of k running
  unfolding run_events
  transaction-run_events user pass k [] running numbered few others = refl
  transaction-run_events user pass k (event ∷ events) running numbered few others =
      let (numbered', more) =
        handle_event-IsNumbered engine_service user pass event running numbered in
      transaction-run_events user pass k events
        (handle_event engine_service user pass event running) numbered' (omega (arith, few, more))
        others.1
      ∙ event-kept user pass k event running numbered (omega (arith, few)) others.0
