-- ===== src/Network/Session.antt =====
-- src/network/server.rs: `handle_tcp_connection`, the loop that serves one TCP client. The state is
-- whether the client has authenticated and the engine's; the log of what was written back is in order.
use kssql.Common.{
  ℕ, Bool, true, false, none, some, List, [], ◌∷◌, ◌++◌, Bytes, bytes_eq, if◌then◌else◌,
}
use kssql.Common.Str.{Text, trim, strip_prefix, trim_start_matches}

-- What the engine is to the server: `execute` of a statement for a connection, its answer and its state
-- (an error's text is made by `format!("Error: {}", e)`); what is written back is bytes.
pub record Service : Type 1 where
  pub State : Type 0
  pub execute : Text → ℕ → State → Bytes × State

pub data Reply : Type 0 where
  authenticated auth_required : Reply
  answer : Bytes → Reply

-- "AUTH "
abbrev pub auth_prefix : Text
auth_prefix = 65 ∷ 85 ∷ 84 ∷ 72 ∷ 32 ∷ []

-- `format!("{}:{}", user, pass)`
abbrev pub credentials : Text → Text → Text
credentials user pass = user ++ 58 ∷ pass

-- the test of a first line that has been trimmed
unfoldable pub is_login : Text → Text → Text → Bool
unfolding trim trim_start_matches
is_login user pass input = elim (strip_prefix auth_prefix input) [
  | none ↦ false
  | some rest ↦ bytes_eq (trim (trim_start_matches auth_prefix input)) (credentials user pass)
]

module _ (service : Service) where
  pub record Session : Type 0 where
    pub engine : service.State
    pub authenticated : Bool
    pub replies : List Reply
    -- the queries that were broadcast to the dashboards
    pub broadcast : List Text
    pub closed : Bool

  unfoldable pub new_session : service.State → Session
  new_session engine = record {
    engine = engine;
    authenticated = false;
    replies = [];
    broadcast = [];
    closed = false;
  }

  -- one turn of the loop, with the line that was read
  unfoldable pub handle_line : Text → Text → ℕ → Text → Session → Session
  unfolding is_login trim
  handle_line user pass conn_id line session =
      let input = trim line in
      let (result, engine) = service.execute input conn_id session.engine in
      if session.authenticated
      then record session {
        engine = engine;
        replies = session.replies ++ answer result ∷ [];
        broadcast = session.broadcast ++ input ∷ [];
      }
      else (if is_login user pass input
          then record session {
            authenticated = true;
            replies = session.replies ++ authenticated ∷ [];
          }
          else record session { replies = session.replies ++ auth_required ∷ []; closed = true })

  -- The lines that the client sends until it ends the connection. After a line that closes the session
  -- nothing is read.
  unfoldable pub handle_tcp_connection : Text → Text → ℕ → List Text → Session → Session
  unfolding handle_line
  handle_tcp_connection user pass conn_id [] session = record session { closed = true }
  handle_tcp_connection user pass conn_id (line ∷ lines) session =
      let session' = handle_line user pass conn_id line session in
      let rest = handle_tcp_connection user pass conn_id lines session' in
      if session'.closed then session' else rest
