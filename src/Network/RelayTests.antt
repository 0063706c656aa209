-- ===== src/Network/RelayTests.antt =====
-- src/network/server.rs: a websocket, while a client logs in and sends a line and a request comes.
use kssql.Common.{ℕ, some, ◌+◌, ◌*◌, ◌/◌, ◌≡◌, refl, ltb, Bool, true, List, [], ◌∷◌, ◌++◌}
use kssql.Common.Str.{trim}
use kssql.Storage.MemoryTier.{new_tier}
use kssql.Storage.Hardware.{
  Reals, HardwareSpecs, System, cpu_critical, ram_critical, scan, check_alerts,
}
use kssql.Network.Session.{Service, auth_prefix, is_login, handle_line}
use kssql.Network.Connections.{Event, accept, line_from, web_query, start_listening, run_events}
use kssql.Network.Metrics.{Wakeup, received, elapsed, handle_ws, logs_of}
use kssql.Network.Relayed.{queries_of, handle_ws-run_events}

-- Whole numbers for floats.
abbrev whole : Reals
whole = record {
  Float = ℕ;
  of_u64 = λ n. n;
  to_u64 = λ n. n;
  multiply = λ a b. a * b;
  divide = λ a b. a / b;
  greater = λ a b. ltb b a;
  nought = 0;
  tenth = 0;
  ninety = 90;
  hundred = 100;
  one_decimal = λ n. n ∷ [];
}

abbrev counter : Service
counter = record { State = ℕ; execute = λ text conn_id n. (text, n + 1) }

abbrev machine : System whole
machine = record {
  cpus = 2;
  total_memory = 104857600;
  available_memory = 1048576;
  used_memory = 103809024;
  cpu_usage = 91;
}

abbrev specs : HardwareSpecs
specs = record {
  cpu_cores = 2;
  total_ram_mb = 100;
  available_ram_mb = 1;
  jet_buffer_size_mb = 0;
  writers = 2;
  readers = 8;
}

scanned : scan whole machine ≡ specs
unfolding scan
scanned = refl

-- 99 of 100 MB are used.
alerted : check_alerts whole specs machine ≡ cpu_critical 91 ∷ ram_critical 99 ∷ []
unfolding check_alerts
alerted = refl

-- A client connects, logs in as "u:p" and sends "X"; a request sends "Y"; a second client is refused.
abbrev visits : List Event
visits =
    accept
    ∷ line_from 0 (auth_prefix ++ 117 ∷ 58 ∷ 112 ∷ 10 ∷ [])
    ∷ line_from 0 (88 ∷ 10 ∷ [])
    ∷ web_query (some (117 ∷ 58 ∷ 112 ∷ [])) (89 ∷ [])
    ∷ accept
    ∷ line_from 1 (90 ∷ 10 ∷ [])
    ∷ []

abbrev turns : List (Wakeup whole × Bool)
turns =
    (received (88 ∷ []), true)
    ∷ (elapsed machine 7 (new_tier 1024), true)
    ∷ (received (89 ∷ []), true)
    ∷ []

all_received :
    (run_events counter (117 ∷ []) (112 ∷ []) visits (start_listening counter 0)).broadcast
    ≡ (88 ∷ []) ∷ (89 ∷ []) ∷ []
unfolding run_events start_listening is_login handle_line trim
all_received = refl

handle_ws-run_events_example :
    logs_of whole (handle_ws whole specs turns)
    ≡ queries_of counter (117 ∷ []) (112 ∷ []) visits (start_listening counter 0)
unfolding start_listening
handle_ws-run_events_example =
    handle_ws-run_events counter whole (117 ∷ []) (112 ∷ []) visits (start_listening counter 0)
      specs turns all_received (refl, (refl, (refl, tt)))
