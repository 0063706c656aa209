-- ===== src/Network/Connections/Numbered.antt =====
-- src/network/server.rs: the ids of the connections.
use kssql.Common.{
  ℕ, ◌+◌, ◌%◌, ◌^◌, ◌<◌, ◌≤◌, ◌≡◌, refl, Bool-cases, Option, none, some, nat_equality, inl, inr,
  arith, ==_iff,
}
use kssql.Common.Dict
use kssql.Common.Dict.{get-insert}
use kssql.Common.Str.{Text}
use kssql.Network.Session.{Service, handle_line}
use kssql.Network.Handlers.{check_auth}
use kssql.Network.Connections.{
  Client, Event, accept, line_from, web_query, new_client, Running, start_listening, session_of,
  client_of, serve_line, handle_event,
}

module _ (service : Service) where
  -- The client who connected as number `n`, from 0, has the id `1000 + n`, as a `u32`.
  pub record IsNumbered (running : Running service) : Type 0 where
    pub named :
        (n : ℕ) (client : Client)
        → Dict.get running.clients n ≡ some client
        → (n < running.accepted) × (client.conn_id ≡ (1000 + n) % 2 ^ 32)
    pub next : running.next_conn_id ≡ (1000 + running.accepted) % 2 ^ 32

  pub start_listening-IsNumbered :
      (engine : service.State) → IsNumbered (start_listening service engine)
  unfolding start_listening
  start_listening-IsNumbered engine = record { named = λ n client h. absurd (cc h); next = refl }

  serve_line-IsNumbered :
      (user pass : Text) (n : ℕ) (text : Text) (running : Running service) (client : Option Client)
      → Dict.get running.clients n ≡ client
      → IsNumbered running
      → IsNumbered (serve_line service user pass n text client running)
        × ((serve_line service user pass n text client running).accepted ≡ running.accepted)
  unfolding serve_line
  serve_line-IsNumbered user pass n text running none at numbered = (numbered, refl)
  serve_line-IsNumbered user pass n text running (some client) at numbered =
      elim (Bool-cases client.closed) [
        | inl ended ↦ rw (serve_line, ended) (numbered, refl)
        | inr goes_on ↦
            let session =
              handle_line service user pass client.conn_id text
                (session_of service client running) in
            let client' = client_of service client.conn_id session in
            let own = numbered.named n client at in
            rw (serve_line, goes_on)
              (
                record {
                  named = λ m other found. ground (
                    arith,
                    numbered.named m other,
                    own,
                    get-insert running.clients n m client',
                    ==_iff n m,
                    found,
                  );
                  next = numbered.next;
                },
                refl,
              )
      ]

  -- Whatever happens, the clients stay numbered, and one more is counted at most.
  pub handle_event-IsNumbered :
      (user pass : Text) (event : Event) (running : Running service)
      → IsNumbered running
      → IsNumbered (handle_event service user pass event running)
        × ((handle_event service user pass event running).accepted ≤ running.accepted + 1)
  unfolding handle_event
  handle_event-IsNumbered user pass accept running numbered = (
    record {
      named = λ m other found. ground (
        arith,
        numbered.named m other,
        numbered.next,
        get-insert running.clients running.accepted m (new_client running.next_conn_id),
        ==_iff running.accepted m,
        found,
      );
      next = omega (arith, numbered.next);
    },
    omega arith,
  )
  handle_event-IsNumbered user pass (line_from n text) running numbered =
      let (numbered', same) =
        serve_line-IsNumbered user pass n text running (Dict.get running.clients n) refl numbered in
      (numbered', omega (arith, same))
  handle_event-IsNumbered user pass (web_query header body) running numbered =
      elim (Bool-cases (check_auth header user pass)) [
        | inl allowed ↦
            rw (handle_event, allowed)
              (record { named = numbered.named; next = numbered.next }, omega arith)
        | inr refused ↦ rw (handle_event, refused) (numbered, omega arith)
      ]
