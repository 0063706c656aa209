-- ===== src/Storage/Hardware.antt =====
-- src/storage/mod.rs: `HardwareManager`, what the engine reads of the machine, and the ratio of the hits of
-- the memory tier. The counters of the system and the floats are interfaces.
use kssql.Common.{
  ℕ, ◌+◌, ◌*◌, ◌/◌, ◌%◌, ◌^◌, ◌-◌, Bool, List, [], ◌∷◌, ◌++◌, Bytes, ltb, ◌==◌, if◌then◌else◌,
}
use kssql.Storage.MemoryTier.{MemoryTier}

-- The arithmetic of `f64`; an `f32` is one of its values.
pub record Reals : Type 1 where
  pub Float : Type 0
  pub of_u64 : ℕ → Float
  pub to_u64 : Float → ℕ
  pub multiply : Float → Float → Float
  pub divide : Float → Float → Float
  pub greater : Float → Float → Bool
  pub nought : Float
  pub tenth : Float
  pub ninety : Float
  pub hundred : Float
  -- `format!("{:.1}", x)`
  pub one_decimal : Float → Bytes

pub record HardwareSpecs : Type 0 where
  pub cpu_cores : ℕ
  pub total_ram_mb : ℕ
  pub available_ram_mb : ℕ
  pub jet_buffer_size_mb : ℕ
  pub writers : ℕ
  pub readers : ℕ

module _ (reals : Reals) where
  open reals use {Float, of_u64, to_u64, multiply, divide, greater, nought, tenth, ninety, hundred}

  -- `sysinfo::System` when it has been refreshed.
  pub record System : Type 0 where
    pub cpus : ℕ
    pub total_memory : ℕ
    pub available_memory : ℕ
    pub used_memory : ℕ
    pub cpu_usage : Float

  unfoldable pub scan : System → HardwareSpecs
  scan sys =
      let available_ram_mb = sys.available_memory / 1024 / 1024 in
      record {
        cpu_cores = sys.cpus;
        total_ram_mb = sys.total_memory / 1024 / 1024;
        available_ram_mb = available_ram_mb;
        jet_buffer_size_mb = to_u64 (multiply (of_u64 available_ram_mb) tenth);
        writers = sys.cpus;
        readers = (sys.cpus * 4) % 2 ^ 64;
      }

  pub data Alert : Type 0 where
    cpu_critical : Float → Alert
    ram_critical : ℕ → Alert

  -- `total_memory() - available_memory()` on `u64`, which wraps in a release build.
  abbrev pub used_ram : System → ℕ
  used_ram sys = (sys.total_memory + (2 ^ 64 - sys.available_memory)) % 2 ^ 64 / 1024 / 1024

  -- The alerts that are printed.
  unfoldable pub check_alerts : HardwareSpecs → System → List Alert
  check_alerts specs sys =
      (if greater sys.cpu_usage ninety then cpu_critical sys.cpu_usage ∷ [] else [])
      ++ (if ltb ((specs.total_ram_mb * 90) % 2 ^ 64 / 100) (used_ram sys)
          then ram_critical (used_ram sys) ∷ []
          else [])

  unfoldable pub get_hit_ratio : MemoryTier → Float
  get_hit_ratio tier =
      let total = (tier.hits + tier.misses) % 2 ^ 64 in
      if total == 0 then nought else multiply (divide (of_u64 tier.hits) (of_u64 total)) hundred
