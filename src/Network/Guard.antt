-- ===== src/Network/Guard.antt =====
-- src/network/server.rs: no statement of a TCP client is executed before it has authenticated.
use kssql.Common.{
  sym, ap, ◌∙◌, ℕ, ◌≡◌, refl, ◌⊎◌, inl, inr, Bool-cases, true, false, List, [], ◌∷◌, ◌++◌,
  append_assoc, append-nil, arith,
}
use kssql.Common.Str.{Text, trim}
use kssql.Network.Session.{
  Service, Session, Reply, authenticated, auth_required, answer, is_login, new_session, handle_line,
  handle_tcp_connection,
}

module _ (service : Service) where
  -- The statements executed one after the other: the engine's state at the end, and the answers.
  unfoldable pub run_all : ℕ → List Text → service.State → service.State × List Reply
  unfolding trim
  run_all conn_id [] engine = (engine, [])
  run_all conn_id (line ∷ lines) engine =
      let (result, engine') = service.execute (trim line) conn_id engine in
      let (last, answers) = run_all conn_id lines engine' in (last, answer result ∷ answers)

  -- the session after a statement
  abbrev answered : ℕ → Text → Session service → Session service
  answered conn_id line session =
      let (result, engine') = service.execute (trim line) conn_id session.engine in
      record session {
        engine = engine';
        replies = session.replies ++ answer result ∷ [];
        broadcast = session.broadcast ++ trim line ∷ [];
      }

  handle_line_auth :
      (user pass : Text) (conn_id : ℕ) (line : Text) (session : Session service)
      → session.authenticated ≡ true
      → handle_line service user pass conn_id line session ≡ answered conn_id line session
  unfolding handle_line
  handle_line_auth user pass conn_id line session auth = rw (handle_line, auth) refl

  read_on :
      (user pass : Text) (conn_id : ℕ) (line : Text) (lines : List Text)
      (session next : Session service)
      → handle_line service user pass conn_id line session ≡ next
      → next.closed ≡ false
      → handle_tcp_connection service user pass conn_id (line ∷ lines) session
        ≡ handle_tcp_connection service user pass conn_id lines next
  unfolding handle_tcp_connection
  read_on user pass conn_id line lines session next to still = ground (arith, to, still)

  -- A session whose client has authenticated executes every line, in order, and answers each.
  served :
      (user pass : Text) (conn_id : ℕ) (lines : List Text) (session : Session service)
      → session.authenticated ≡ true
      → session.closed ≡ false
      → ((handle_tcp_connection service user pass conn_id lines session).engine
          ≡ (run_all conn_id lines session.engine).0)
        × ((handle_tcp_connection service user pass conn_id lines session).replies
            ≡ session.replies ++ (run_all conn_id lines session.engine).1)
  unfolding handle_tcp_connection run_all
  served user pass conn_id [] session auth still = (refl, sym (append-nil session.replies))
  served user pass conn_id (line ∷ lines) session auth still =
      let ih = served user pass conn_id lines (answered conn_id line session) auth still in
      let on =
        read_on user pass conn_id line lines session (answered conn_id line session)
          (handle_line_auth user pass conn_id line session auth) still in
      (ap (λ t. t.engine) on ∙ ih.0, ap (λ t. t.replies) on ∙ ih.1 ∙ simp append_assoc)

  -- the session after a login
  abbrev logged_in : service.State → Session service
  logged_in engine = record {
    engine = engine;
    authenticated = true;
    replies = authenticated ∷ [];
    broadcast = [];
    closed = false;
  }

  -- A client whose first line is not a login gets one refusal and is disconnected: none of its lines is
  -- executed, whatever they are. A client whose first line is a login has all its other lines executed in
  -- their order, each with its answer.
  pub session_lem :
      (user pass : Text) (conn_id : ℕ) (line : Text) (lines : List Text) (engine : service.State)
      → ((is_login user pass (trim line) ≡ false)
          × (handle_tcp_connection service user pass conn_id
                (line ∷ lines)
                (new_session service engine)
              ≡ record (new_session service engine) {
                replies = auth_required ∷ [];
                closed = true;
              }))
        ⊎ ((is_login user pass (trim line) ≡ true)
            × ((handle_tcp_connection service user pass conn_id
                  (line ∷ lines)
                  (new_session service engine)).engine
                ≡ (run_all conn_id lines engine).0)
            × ((handle_tcp_connection service user pass conn_id
                  (line ∷ lines)
                  (new_session service engine)).replies
                ≡ authenticated ∷ (run_all conn_id lines engine).1))
  unfolding handle_tcp_connection handle_line new_session
  session_lem user pass conn_id line lines engine =
      elim (Bool-cases (is_login user pass (trim line))) [
        | inl login ↦
            let on =
              read_on user pass conn_id line lines (new_session service engine) (logged_in engine)
                (rw (handle_line, login) refl) refl in
            let rest = served user pass conn_id lines (logged_in engine) refl refl in
            inr (login, ap (λ t. t.engine) on ∙ rest.0, ap (λ t. t.replies) on ∙ rest.1)
        | inr refused ↦ inl (refused, rw refused refl)
      ]
