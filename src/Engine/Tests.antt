-- ===== src/Engine/Tests.antt =====
-- src/parser/engine.rs: runs of transactions, and the theorems at concrete inputs.
use kssql.Common.{
  ℕ, ◌<◌, ◌≡◌, ◌≢◌, ◌⊎◌, refl, true, false, Bool, Option, none, some, [], ◌∷◌, ◌++◌, Bytes, zeros,
  length, take, drop, ◌==◌, if◌then◌else◌, take-append, bytes_equality, nat_equality, arith,
}
use kssql.Common.Int.{ℤ, pos, negsuc}
use kssql.Common.Dict
use kssql.Common.Result.{Error, ok, err, read_failed}
use kssql.Storage.Codec.{Codec, IsFaithful}
use kssql.Storage.Btree.Node.{Record, new_leaf}
use kssql.Storage.Btree.Store.{Store}
use kssql.Storage.MemoryTier.{new_tier, insert, get, make_room}
use kssql.Storage.Wal.Frame.{WalEntry, record_update}
use kssql.Storage.Wal.Queue.{open_wal, flush_pipeline}
use kssql.Storage.Wal.Enqueue.{enqueue}
use kssql.Engine.State.{Transaction, Engine, World, next_version, tier_insert}
use kssql.Engine.Transactions.{check_updates, commit, begin, write_row}
use kssql.Engine.Untouched.{IsUntouched}
use kssql.Engine.Refusal.{commit_refused}
use kssql.Engine.Commit.{IsStamped, closed, with_more, commit_lem}
use kssql.Engine.FirstWins.{first_committer_wins}

-- An encoding of records, but for times before 1970.
abbrev pub encode_parts : Bytes → ℕ → Bool → ℤ → Option Bytes
encode_parts value version is_deleted (pos time) =
    some (version ∷ (if is_deleted then 1 else 0) ∷ time ∷ length value ∷ value)
encode_parts value version is_deleted (negsuc time) = none

abbrev pub decode_row : Bytes → Option Record
decode_row (version ∷ flag ∷ time ∷ n ∷ rest) = some (record {
  value = take n rest;
  version = version;
  is_deleted = flag == 1;
  timestamp = pos time;
})
decode_row _ = none

abbrev pub rows : Codec Record
rows = record {
  serialize = λ row. encode_parts row.value row.version row.is_deleted row.timestamp;
  deserialize = decode_row;
}

parts_back :
    (value : Bytes) (version : ℕ) (is_deleted : Bool) (time : ℤ) (b : Bytes) (n : ℕ)
    → encode_parts value version is_deleted time ≡ some b
    → (decode_row (b ++ zeros n)
        ≡ some (record {
          value = value;
          version = version;
          is_deleted = is_deleted;
          timestamp = time;
        }))
      × (0 < length b)
parts_back value version false (pos time) b n h =
    let same : b ≡ version ∷ 0 ∷ time ∷ length value ∷ value = cc in
    rw (same, take-append (length value) value (zeros n) refl) (refl, omega arith)
parts_back value version true (pos time) b n h =
    let same : b ≡ version ∷ 1 ∷ time ∷ length value ∷ value = cc in
    rw (same, take-append (length value) value (zeros n) refl) (refl, omega arith)
parts_back value version is_deleted (negsuc time) b n h = cc

pub faithful : IsFaithful rows
faithful = record {
  read_back = λ row b n h. (parts_back row.value row.version row.is_deleted row.timestamp b n h).0;
  nonempty = λ row b h. (parts_back row.value row.version row.is_deleted row.timestamp b 0 h).1;
}

abbrev pub encode_entry : WalEntry → Option Bytes
encode_entry (record_update key bytes) = some (length key ∷ (key ++ bytes))
encode_entry _ = none

-- An encoding of rows of one column.
abbrev pub encode_columns : Dict.Dict Bytes Bytes → Option Bytes
encode_columns ((key, v) ∷ []) = some (length key ∷ (key ++ v))
encode_columns _ = none

abbrev pub decode_columns : Bytes → Option (Dict.Dict Bytes Bytes)
decode_columns (n ∷ rest) = some ((take n rest, drop n rest) ∷ [])
decode_columns [] = none

-- A database of one empty leaf.
abbrev pub empty_store : Store
empty_store = record {
  State = Unit {0};
  count = λ s. 1;
  load = λ s id. ok new_leaf;
  save = λ id node s. (err read_failed, s);
  allocate = λ s. (err read_failed, s);
  sync = λ s. ok tt;
  is_full = λ node. false;
}

abbrev pub world : World
world = record {
  store = empty_store;
  depth = 1;
  chain = 1;
  entries = record { serialize = encode_entry; deserialize = λ b. none };
  row_codec = record { serialize = encode_columns; deserialize = decode_columns };
  schema_codec = record { serialize = λ schemas. some []; deserialize = λ b. none };
  clock = λ n. pos n;
  random = λ n. n;
  others = λ n queue. queue;
  page_log = λ s. [];
  with_page_log = λ queue s. s;
}

abbrev pub row : ℕ → ℕ → Bytes
row version value = version ∷ 0 ∷ 9 ∷ 1 ∷ value ∷ []

abbrev pub writes : ℕ → Transaction
writes value = record { id = 0; snapshot_version = 0; updates = ((7 ∷ []), row 1 value) ∷ [] }

-- Two connections that both write the row 7.
abbrev pub both : Engine empty_store
both = record {
  btree = record { pages = tt; wal = open_wal []; memory_tier = new_tier 1 };
  current_version = 0;
  active_transactions = (1, writes 11) ∷ (2, writes 12) ∷ [];
  schemas = [];
  indices = [];
  ticks = 0;
  draws = 0;
}

-- The same when somebody has written the row with version 5.
abbrev newer : Engine empty_store
newer = tier_insert world (7 ∷ []) (row 5 10) both

two_begin :
    (commit world rows 1
      (write_row world rows 1
        (7 ∷ [])
        (row 1 11)
        (begin world rows 2
          (begin world rows 1 (record both { active_transactions = [] })).1).1).1).0
    ≡ ok tt
unfolding commit write_row begin new_tier open_wal get insert make_room enqueue
two_begin = refl

commit_refused_example :
    ((e : Error) × ((commit world rows 1 newer).0 ≡ err e))
    × IsUntouched world
        (record newer { active_transactions = Dict.remove newer.active_transactions 1 })
        (commit world rows 1 newer).1
    × (Dict.get (commit world rows 1 newer).1.active_transactions 1 ≡ none)
unfolding tier_insert new_tier insert make_room
commit_refused_example =
    commit_refused world rows 1 (writes 11) newer (7 ∷ []) (row 1 11) (row 5 10)
      (record { value = 10 ∷ []; version = 5; is_deleted = false; timestamp = pos 9 }) refl refl
      refl refl (omega arith)

abbrev stamped : Dict.Dict Bytes Bytes
stamped = ((7 ∷ []), row 1 11) ∷ []

both_passes : (check_updates world rows (writes 11).updates 0 (closed world 1 both)).0 ≡ ok tt
unfolding check_updates new_tier get
both_passes = refl

both-IsStamped : IsStamped rows (next_version 0) (writes 11).updates stamped
both-IsStamped = (
  refl,
  (record { value = 11 ∷ []; version = 1; is_deleted = false; timestamp = pos 9 }, refl, refl),
  tt,
)

both_held : Dict.get (commit world rows 1 both).1.btree.memory_tier.cache (7 ∷ []) ≢ none
unfolding commit new_tier open_wal get insert make_room enqueue
both_held = λ h. absurd (cc h)

commit_lem_example :
    ((commit world rows 1 both).0 ≡ ok tt)
    × ((commit world rows 1 both).1.current_version ≡ next_version both.current_version)
    × ((commit world rows 1 both).1.btree.wal
        ≡ flush_pipeline world.entries (with_more world stamped both.btree.wal))
    × ((commit world rows 1 both).1.active_transactions ≡ Dict.remove both.active_transactions 1)
    × ((key bytes : Bytes)
        → Dict.get stamped key ≡ some bytes
        → (Dict.get (commit world rows 1 both).1.btree.memory_tier.cache key ≡ some bytes)
          ⊎ (Dict.get (commit world rows 1 both).1.btree.memory_tier.cache key ≡ none))
unfolding open_wal
commit_lem_example =
    commit_lem world rows 1 (writes 11) both stamped refl both_passes both-IsStamped (refl, tt)
      (omega arith)

first_committer_wins_example :
    ((commit world rows 1 both).0 ≡ ok tt)
    × ((e : Error) × ((commit world rows 2 (commit world rows 1 both).1).0 ≡ err e))
unfolding open_wal
first_committer_wins_example =
    first_committer_wins world rows faithful 1 2 (writes 11) (writes 12) both stamped (7 ∷ [])
      (row 1 11) (row 1 12) (omega arith) refl refl refl refl (omega arith) (omega arith)
      both_passes both-IsStamped (refl, tt) (omega arith) both_held
