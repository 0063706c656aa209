-- ===== src/Network/ArgumentTests.antt =====
-- src/main.rs: the arguments `w:80:SSL` and `m:7`, and a path of one letter.
use kssql.Common.{◌≡◌, refl, true, some, List, [], ◌∷◌, ◌++◌, Bytes, arith}
use kssql.Network.Arguments.{
  Settings, default_settings, read_ports, read_ports_lem, IsFurther, extension, wal_path,
  wal_path-append,
}

abbrev ports : List Bytes
ports = (119 ∷ 58 ∷ 56 ∷ 48 ∷ 58 ∷ 83 ∷ 83 ∷ 76 ∷ []) ∷ (109 ∷ 58 ∷ 55 ∷ []) ∷ []

abbrev read_settings : Settings
read_settings = record { web_port = 80; use_ssl = true; main_port = 7 }

reads : read_ports ports default_settings ≡ some read_settings
unfolding read_ports
reads = refl

read_ports_lem_example : IsFurther default_settings read_settings
read_ports_lem_example =
    read_ports_lem ports default_settings read_settings (omega arith) (omega arith) reads

wal_path-append_example : wal_path ((120 ∷ []) ++ extension) ≡ wal_path (120 ∷ [])
wal_path-append_example = wal_path-append (120 ∷ []) refl
