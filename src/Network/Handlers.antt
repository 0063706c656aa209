-- ===== src/Network/Handlers.antt =====
-- src/network/server.rs: the handlers of the HTTP requests, each with its guard.
use kssql.Common.{
  ℕ, Bool, false, Option, none, some, List, [], ◌∷◌, ◌++◌, Bytes, bytes_eq, if◌then◌else◌,
}
use kssql.Storage.MemoryTier.{MemoryTier, clear}
use kssql.Common.Str.{Text}
use kssql.Network.Session.{credentials}

pub data Answer : Type 0 where
  success failure : Bytes → Answer

-- What the handlers call: the engine, the file of the database, and the fields of a JSON body.
pub record Backend : Type 1 where
  pub State : Type 0
  pub execute : Text → ℕ → State → Answer × State
  pub undo : State → State
  pub redo : State → State
  pub read_database : State → Bytes
  pub turbo_of : Text → Option Bool
  pub limit_mb_of : Text → Option ℕ

pub record Response : Type 0 where
  pub status : ℕ
  pub body : Bytes

-- A status code alone.
abbrev pub bare : ℕ → Response
bare status = record { status = status; body = [] }

-- "Unauthorized"
abbrev pub unauthorized_text : Bytes
unauthorized_text = 85 ∷ 110 ∷ 97 ∷ 117 ∷ 116 ∷ 104 ∷ 111 ∷ 114 ∷ 105 ∷ 122 ∷ 101 ∷ 100 ∷ []

-- `format!("Error: {}", e)`
abbrev pub error_text : Bytes → Bytes
error_text e = 69 ∷ 114 ∷ 114 ∷ 111 ∷ 114 ∷ 58 ∷ 32 ∷ e

-- The header `Authorization`, `none` where it is missing or is no string.
unfoldable pub check_auth : Option Text → Text → Text → Bool
check_auth none user pass = false
check_auth (some header) user pass = bytes_eq header (credentials user pass)

module _ (backend : Backend) where
  pub record App : Type 0 where
    pub engine : backend.State
    pub memory_tier : MemoryTier
    pub broadcast : List Text

  abbrev pub answer_of : Answer → Response
  answer_of (success res) = record { status = 200; body = res }
  answer_of (failure e) = record { status = 400; body = error_text e }

  unfoldable pub query_handler : Bool → Text → App → Response × App
  query_handler allowed body app =
      let (result, engine) = backend.execute body 999 app.engine in
      if allowed
      then (
        answer_of result,
        record app { engine = engine; broadcast = app.broadcast ++ body ∷ [] },
      )
      else (record { status = 401; body = unauthorized_text }, app)

  unfoldable pub undo_handler : Bool → App → Response × App
  undo_handler allowed app =
      if allowed
      then (bare 200, record app { engine = backend.undo app.engine })
      else (bare 401, app)

  unfoldable pub redo_handler : Bool → App → Response × App
  redo_handler allowed app =
      if allowed
      then (bare 200, record app { engine = backend.redo app.engine })
      else (bare 401, app)

  unfoldable pub backup_handler : Bool → App → Response × App
  backup_handler allowed app =
      if allowed
      then (record { status = 200; body = backend.read_database app.engine }, app)
      else (bare 401, app)

  unfoldable pub memory_mode_handler : Bool → Text → App → Response × App
  memory_mode_handler allowed body app =
      if allowed
      then elim (backend.turbo_of body) [
        | none ↦ (bare 400, app)
        | some turbo ↦ (
          bare 200,
          record app {
            memory_tier = record app.memory_tier { turbo_mode = if turbo then 1 else 0 };
          },
        )
      ]
      else (bare 401, app)

  unfoldable pub memory_limit_handler : Bool → Text → App → Response × App
  memory_limit_handler allowed body app =
      if allowed
      then elim (backend.limit_mb_of body) [
        | none ↦ (bare 400, app)
        | some limit ↦
            (bare 200, record app { memory_tier = record app.memory_tier { max_ram_mb = limit } })
      ]
      else (bare 401, app)

  unfoldable pub memory_purge_handler : Bool → App → Response × App
  memory_purge_handler allowed app =
      if allowed
      then (bare 200, record app { memory_tier = clear app.memory_tier })
      else (bare 401, app)
