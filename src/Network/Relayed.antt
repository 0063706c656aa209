-- ===== src/Network/Relayed.antt =====
-- src/network/server.rs: what a websocket of the dashboard gets of the queries of the clients.
use kssql.Common.{
  ℕ, ◌≡◌, refl, ap, sym, ◌∙◌, Bool, true, Option, none, some, List, [], ◌∷◌, ◌++◌, append-nil,
  append_assoc, All, nat_equality, if◌then◌else◌, Bool-cases, inl, inr, arith,
}
use kssql.Common.Dict
use kssql.Common.Str.{Text, trim}
use kssql.Network.Session.{Service, is_login, handle_line}
use kssql.Network.Handlers.{check_auth}
use kssql.Network.Connections.{
  Client, Event, accept, line_from, web_query, Running, serve_line, handle_event, run_events,
}
use kssql.Storage.Hardware.{Reals, HardwareSpecs}
use kssql.Network.Metrics.{Wakeup, handle_ws, received_in, logs_of, logs_of-handle_ws}

module _ (service : Service) where
  -- The query that a line of this client is, if the client has authenticated and is connected.
  abbrev pub query_in : Option Client → Text → List Text
  query_in none text = []
  query_in (some client) text =
      if client.closed then [] else (if client.authenticated then trim text ∷ [] else [])

  abbrev pub query_of : Text → Text → Event → Running service → List Text
  query_of user pass accept running = []
  query_of user pass (line_from n text) running = query_in (Dict.get running.clients n) text
  query_of user pass (web_query header body) running =
      if check_auth header user pass then body ∷ [] else []

  -- The queries that are executed: the lines of the clients who have authenticated, and the bodies of the
  -- requests with the credentials.
  abbrev pub queries_of : Text → Text → List Event → Running service → List Text
  queries_of user pass [] running = []
  queries_of user pass (event ∷ events) running =
      query_of user pass event running
      ++ queries_of user pass events (handle_event service user pass event running)

  same_rest : (xs ys zs : List Text) → xs ++ ys ≡ xs ++ zs → ys ≡ zs
  same_rest [] ys zs e = e
  same_rest (x ∷ xs) ys zs e = same_rest xs ys zs (ground (arith, e))

  serve_line-broadcast :
      (user pass : Text) (n : ℕ) (text : Text) (running : Running service) (client : Option Client)
      → (serve_line service user pass n text client running).broadcast
        ≡ running.broadcast ++ query_in client text
  unfolding serve_line handle_line
  serve_line-broadcast user pass n text running none = sym (append-nil running.broadcast)
  serve_line-broadcast user pass n text running (some client) = elim (Bool-cases client.closed) [
    | inl ended ↦ rw (serve_line, ended) (sym (append-nil running.broadcast))
    | inr goes_on ↦ elim (Bool-cases client.authenticated) [
      | inl inside ↦ rw (serve_line, handle_line, goes_on, inside) refl
      | inr outside ↦ elim (Bool-cases (is_login user pass (trim text))) [
        | inl accepted ↦
            rw (serve_line, handle_line, goes_on, outside, accepted)
              (sym (append-nil running.broadcast))
        | inr refused ↦
            rw (serve_line, handle_line, goes_on, outside, refused)
              (sym (append-nil running.broadcast))
      ]
    ]
  ]

  handle_event-broadcast :
      (user pass : Text) (event : Event) (running : Running service)
      → (handle_event service user pass event running).broadcast
        ≡ running.broadcast ++ query_of user pass event running
  unfolding handle_event
  handle_event-broadcast user pass accept running = sym (append-nil running.broadcast)
  handle_event-broadcast user pass (line_from n text) running =
      serve_line-broadcast user pass n text running (Dict.get running.clients n)
  handle_event-broadcast user pass (web_query header body) running =
      elim (Bool-cases (check_auth header user pass)) [
        | inl allowed ↦ rw (handle_event, allowed) refl
        | inr refused ↦ rw (handle_event, refused) (sym (append-nil running.broadcast))
      ]

  run_events-broadcast :
      (user pass : Text) (events : List Event) (running : Running service)
      → (run_events service user pass events running).broadcast
        ≡ running.broadcast ++ queries_of user pass events running
  unfolding run_events
  run_events-broadcast user pass [] running = sym (append-nil running.broadcast)
  run_events-broadcast user pass (event ∷ events) running =
      let running' = handle_event service user pass event running in
      run_events-broadcast user pass events running'
      ∙ ap (λ l. l ++ queries_of user pass events running')
          (handle_event-broadcast user pass event running)
      ∙ append_assoc running.broadcast (query_of user pass event running)
          (queries_of user pass events running')

  -- Whatever happens in a server: if what a websocket receives is all that is broadcast meanwhile, and each of
  -- its sends succeeds, then it sends just the queries of the clients who have authenticated and of the HTTP
  -- requests with the credentials, in their order, and no line by which a client authenticates or fails to.
  pub handle_ws-run_events :
      (reals : Reals) (user pass : Text) (events : List Event) (running : Running service)
      (hw : HardwareSpecs) (turns : List (Wakeup reals × Bool))
      → (run_events service user pass events running).broadcast
        ≡ running.broadcast ++ received_in reals turns
      → All (λ turn. turn.1 ≡ true) turns
      → logs_of reals (handle_ws reals hw turns) ≡ queries_of user pass events running
  handle_ws-run_events reals user pass events running hw turns all sent =
      let (lost, e, none_lost) = logs_of-handle_ws reals hw turns in
      sym (append-nil (logs_of reals (handle_ws reals hw turns)))
      ∙ ap (λ l. logs_of reals (handle_ws reals hw turns) ++ l) (sym (none_lost sent))
      ∙ e
      ∙ same_rest running.broadcast (received_in reals turns) (queries_of user pass events running)
          (sym all ∙ run_events-broadcast user pass events running)
