-- ===== src/Network/Arguments.antt =====
-- src/main.rs: the ports that are given on the command line, and the path of the log.
use kssql.Common.{
  ℕ, ◌+◌, ◌^◌, ◌<◌, ◌≡◌, refl, sym, ap, ◌∙◌, subst, Bool, false, ◌&&◌, ◌||◌, Option, none, some,
  List, [], ◌∷◌, ◌++◌, Bytes, drop, bytes_eq, bytes_eq_iff, leb, length, length-append, arith, inl,
  inr, Bool-cases, Option-cases, if◌then◌else◌, map,
}
use kssql.Common.Text.{starts_with, parse_unsigned, parse_unsigned-bounded, split_on}

pub record Settings : Type 0 where
  pub web_port : ℕ
  pub use_ssl : Bool
  pub main_port : ℕ

abbrev pub default_settings : Settings
default_settings = record { web_port = 8080; use_ssl = false; main_port = 5432 }

-- `to_lowercase() == "ssl"`: no character outside ASCII is lowered to one of these letters.
abbrev pub lower : ℕ → ℕ
lower c = if leb 65 c && leb c 90 then c + 32 else c

abbrev pub is_ssl : List Bytes → Bool
is_ssl [] = false
is_ssl (part ∷ parts) = bytes_eq (map lower part) (115 ∷ 115 ∷ 108 ∷ [])

abbrev pub with_web_port : Option ℕ → List Bytes → Settings → Option Settings
with_web_port none parts settings = none
with_web_port (some port) parts settings =
    some (record settings { web_port = port; use_ssl = is_ssl parts || settings.use_ssl })

abbrev pub with_main_port : Option ℕ → Settings → Option Settings
with_main_port none settings = none
with_main_port (some port) settings = some (record settings { main_port = port })

-- One argument, `w:<port>`, `w:<port>:ssl` or `m:<port>`; any other is passed over.
unfoldable pub read_port : Bytes → Settings → Option Settings
unfolding parse_unsigned
read_port p settings =
    let parts = split_on 58 (drop 2 p) in
    if starts_with (119 ∷ 58 ∷ []) p
    then with_web_port (parse_unsigned (2 ^ 16) parts.0) parts.1 settings
    else (if starts_with (109 ∷ 58 ∷ []) p
        then with_main_port (parse_unsigned (2 ^ 16) (drop 2 p)) settings
        else some settings)

unfoldable pub read_ports : List Bytes → Settings → Option Settings
unfolding read_port
read_ports [] settings = some settings
read_ports (p ∷ ports) settings = elim (read_port p settings) [
  | none ↦ none
  | some settings' ↦ read_ports ports settings'
]

-- ".ksql"
abbrev pub extension : Bytes
extension = 46 ∷ 107 ∷ 115 ∷ 113 ∷ 108 ∷ []

-- `strip_suffix(".ksql").unwrap_or(db)`
abbrev pub stem : Bytes → Bytes
stem [] = []
stem (c ∷ s) = let rest = stem s in if bytes_eq (c ∷ s) extension then [] else c ∷ rest

unfoldable pub wal_path : Bytes → Bytes
wal_path db = stem db ++ 46 ∷ 119 ∷ 97 ∷ 108 ∷ []

-- Settings whose ports are `u16`, and that have TLS on if the others have.
abbrev pub IsFurther : Settings → Settings → Type 0
IsFurther s t =
    (t.web_port < 2 ^ 16) × (t.main_port < 2 ^ 16) × ((t.use_ssl || s.use_ssl) ≡ t.use_ssl)

or_idempotent : (a b : Bool) → ((a || b) || b) ≡ (a || b)
or_idempotent a b = ground arith

same_or : (a : Bool) → (a || a) ≡ a
same_or a = ground arith

or_transitive : (a b c : Bool) → (b || a) ≡ b → (c || b) ≡ c → (c || a) ≡ c
or_transitive a b c h k = ground arith

read_port_lem :
    (p : Bytes) (s t : Settings)
    → s.web_port < 2 ^ 16
    → s.main_port < 2 ^ 16
    → read_port p s ≡ some t
    → IsFurther s t
unfolding read_port
read_port_lem p s t web main done =
    let parts = split_on 58 (drop 2 p) in
    elim (Bool-cases (starts_with (119 ∷ 58 ∷ []) p)) [
      | inl to_web ↦ elim (Option-cases (parse_unsigned (2 ^ 16) parts.0)) [
        | inl bad ↦ absurd (ground (arith, to_web, bad, done))
        | inr (port, good) ↦
            let small = parse_unsigned-bounded (2 ^ 16) parts.0 port (omega arith) good in
            let e : record s { web_port = port; use_ssl = is_ssl parts.1 || s.use_ssl } ≡ t =
              ground (arith, to_web, good, done) in
            subst (λ x. IsFurther s x) e (small, main, or_idempotent (is_ssl parts.1) s.use_ssl)
      ]
      | inr other ↦ elim (Bool-cases (starts_with (109 ∷ 58 ∷ []) p)) [
        | inl to_main ↦ elim (Option-cases (parse_unsigned (2 ^ 16) (drop 2 p))) [
          | inl bad ↦ absurd (ground (arith, other, to_main, bad, done))
          | inr (port, good) ↦
              let small = parse_unsigned-bounded (2 ^ 16) (drop 2 p) port (omega arith) good in
              let e : record s { main_port = port } ≡ t =
                ground (arith, other, to_main, good, done) in
              subst (λ x. IsFurther s x) e (web, small, same_or s.use_ssl)
        ]
        | inr neither ↦
            let e : s ≡ t = ground (arith, other, neither, done) in
            subst (λ x. IsFurther s x) e (web, main, same_or s.use_ssl)
      ]
    ]

-- From ports that are `u16`, whatever arguments are read: the ports are `u16` again, and TLS that was
-- asked for is not switched off by a later argument.
pub read_ports_lem :
    (ports : List Bytes) (s t : Settings)
    → s.web_port < 2 ^ 16
    → s.main_port < 2 ^ 16
    → read_ports ports s ≡ some t
    → IsFurther s t
unfolding read_ports
read_ports_lem [] s t web main done = ground arith
read_ports_lem (p ∷ ports) s t web main done = elim (Option-cases (read_port p s)) [
  | inl bad ↦ absurd (ground (arith, bad, done))
  | inr (s', good) ↦
      let (web', main', on) = read_port_lem p s s' web main good in
      let rest = read_ports_lem ports s' t web' main' (ground (arith, good, done)) in
      (rest.0, rest.1, or_transitive s.use_ssl s'.use_ssl t.use_ssl on rest.2)
]

stem-append : (db : Bytes) → stem db ≡ db → stem (db ++ extension) ≡ db
stem-append [] h = refl
stem-append (c ∷ db) h = elim (Bool-cases (bytes_eq (c ∷ (db ++ extension)) extension)) [
  | inl same ↦
      let e = ap length ((bytes_eq_iff (c ∷ (db ++ extension)) extension).0 same) in
      absurd (omega (arith, e, length-append db extension))
  | inr differs ↦
      let below : stem db ≡ db = ground (arith, h) in
      rw differs (ap (λ l. c ∷ l) (stem-append db below))
]

-- A database whose path does not end in ".ksql" has the same log as the one whose path is the same with
-- ".ksql" behind it.
pub wal_path-append : (db : Bytes) → stem db ≡ db → wal_path (db ++ extension) ≡ wal_path db
unfolding wal_path
wal_path-append db h = ap (λ l. l ++ 46 ∷ 119 ∷ 97 ∷ 108 ∷ []) (stem-append db h ∙ sym h)
