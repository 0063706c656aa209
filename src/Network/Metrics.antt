-- ===== src/Network/Metrics.antt =====
-- src/network/server.rs: the websocket of the dashboard, which sends the queries that are broadcast and the
-- metrics. A JSON value stands as the data it is made of.
use kssql.Common.{
  ℕ, ◌+◌, ◌/◌, ◌%◌, ◌≡◌, refl, ap, Bool, true, false, List, [], ◌∷◌, ◌++◌, All, Bytes, ◌==◌,
  if◌then◌else◌, arith,
}
use kssql.Common.Str.{Text}
use kssql.Storage.MemoryTier.{MemoryTier}
use kssql.Storage.Hardware.{Reals, HardwareSpecs, System, get_hit_ratio}

module _ (reals : Reals) where
  open reals use {Float, greater, ninety, one_decimal}

  pub record Stats : Type 0 where
    pub cpu_cores : ℕ
    pub cpu_load : Bytes
    pub ram_total : ℕ
    pub ram_usage : ℕ
    pub jet_buffer_mb : ℕ
    pub rps : ℕ
    pub is_saturated : Bool
    pub redis_mode : Bool
    pub cache_hit_ratio : Float

  pub data Payload : Type 0 where
    log : Text → Payload
    metric : Stats → Payload

  -- What a turn of the loop waits for.
  pub data Wakeup : Type 0 where
    -- a message of the broadcast
    received : Text → Wakeup
    -- 100 ms have passed: the system as it is then, the random number, and the memory tier
    elapsed : System reals → ℕ → MemoryTier → Wakeup

  unfoldable pub stats_of : HardwareSpecs → System reals → ℕ → MemoryTier → Stats
  unfolding get_hit_ratio
  stats_of hw sys random mem = record {
    cpu_cores = hw.cpu_cores;
    cpu_load = one_decimal sys.cpu_usage;
    ram_total = hw.total_ram_mb;
    ram_usage = sys.used_memory / 1024 / 1024;
    jet_buffer_mb = hw.jet_buffer_size_mb;
    rps = 10000 + random % 5000;
    is_saturated = greater sys.cpu_usage ninety;
    redis_mode = mem.turbo_mode == 1;
    cache_hit_ratio = get_hit_ratio reals mem;
  }

  unfoldable pub payload_of : HardwareSpecs → Wakeup → Payload
  unfolding stats_of
  payload_of hw (received msg) = log msg
  payload_of hw (elapsed sys random mem) = metric (stats_of hw sys random mem)

  -- What the socket gets: each turn comes with whether its send succeeds, and the loop ends with the first
  -- that fails.
  unfoldable pub handle_ws : HardwareSpecs → List (Wakeup × Bool) → List Payload
  unfolding payload_of
  handle_ws hw [] = []
  handle_ws hw ((wakeup, sent) ∷ turns) =
      let rest = handle_ws hw turns in if sent then payload_of hw wakeup ∷ rest else []

  -- The messages of the broadcast among the turns.
  abbrev pub received_in : List (Wakeup × Bool) → List Text
  received_in [] = []
  received_in ((received msg, sent) ∷ turns) = msg ∷ received_in turns
  received_in ((elapsed sys random mem, sent) ∷ turns) = received_in turns

  -- The logs among what was sent.
  abbrev pub logs_of : List Payload → List Text
  logs_of [] = []
  logs_of (log msg ∷ payloads) = msg ∷ logs_of payloads
  logs_of (metric stats ∷ payloads) = logs_of payloads

  -- The socket gets the messages in order, and loses those after a send that failed.
  pub logs_of-handle_ws :
      (hw : HardwareSpecs) (turns : List (Wakeup × Bool))
      → (lost : List Text) × (logs_of (handle_ws hw turns) ++ lost ≡ received_in turns)
        × (All (λ turn. turn.1 ≡ true) turns → lost ≡ [])
  unfolding handle_ws payload_of
  logs_of-handle_ws hw [] = ([], refl, λ h. refl)
  logs_of-handle_ws hw ((received msg, true) ∷ turns) =
      let (lost, e, none_lost) = logs_of-handle_ws hw turns in
      (lost, ap (λ l. msg ∷ l) e, λ h. none_lost h.1)
  logs_of-handle_ws hw ((received msg, false) ∷ turns) =
      (msg ∷ received_in turns, refl, λ h. absurd (ground (arith, h.0)))
  logs_of-handle_ws hw ((elapsed sys random mem, true) ∷ turns) =
      let (lost, e, none_lost) = logs_of-handle_ws hw turns in (lost, e, λ h. none_lost h.1)
  logs_of-handle_ws hw ((elapsed sys random mem, false) ∷ turns) =
      (received_in turns, refl, λ h. absurd (ground (arith, h.0)))
