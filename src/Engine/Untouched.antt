-- ===== src/Engine/Untouched.antt =====
-- src/parser/engine.rs: what reading leaves as it was.
use kssql.Common.{◌≡◌, refl, ◌∙◌, inl, inr, Bytes, bytes_equality, Option-cases}
use kssql.Common.Exec.{Exec, ◌>>=◌, >>=-keeps}
use kssql.Storage.Btree.Cached.{get_keeps}
use kssql.Storage.MemoryTier
use kssql.Storage.MemoryTier.Lookup.{get_lem}
use kssql.Engine.State.{Engine, World, read_current, btree_get}

-- Two states with the same rows, the same log and the same versions.
pub record IsUntouched (world : World) (s t : Engine world.store) : Type 0 where
  pub cache : t.btree.memory_tier.cache ≡ s.btree.memory_tier.cache
  pub wal : t.btree.wal ≡ s.btree.wal
  pub pages : t.btree.pages ≡ s.btree.pages
  pub version : t.current_version ≡ s.current_version
  pub transactions : t.active_transactions ≡ s.active_transactions
  pub schemas : t.schemas ≡ s.schemas
  pub indices : t.indices ≡ s.indices

module _ (world : World) where
  pub IsUntouched-trans :
      (s t u : Engine world.store)
      → IsUntouched world s t
      → IsUntouched world t u
      → IsUntouched world s u
  IsUntouched-trans s t u a b = record {
    cache = b.cache ∙ a.cache;
    wal = b.wal ∙ a.wal;
    pages = b.pages ∙ a.pages;
    version = b.version ∙ a.version;
    transactions = b.transactions ∙ a.transactions;
    schemas = b.schemas ∙ a.schemas;
    indices = b.indices ∙ a.indices;
  }

  pub IsUntouched-refl : (s : Engine world.store) → IsUntouched world s s
  IsUntouched-refl s = record {
    cache = refl;
    wal = refl;
    pages = refl;
    version = refl;
    transactions = refl;
    schemas = refl;
    indices = refl;
  }

  pub >>=-IsUntouched :
      {A B : Type 0} (m : Exec (Engine world.store) A) (f : A → Exec (Engine world.store) B)
      (s : Engine world.store)
      → IsUntouched world s (m s).1
      → ((a : A) (t : Engine world.store) → IsUntouched world t (f a t).1)
      → IsUntouched world s ((m >>= f) s).1
  >>=-IsUntouched m f s first after =
      >>=-keeps (IsUntouched world) IsUntouched-trans m f s first (λ a. after a (m s).1)

  pub btree_get-IsUntouched :
      (key : Bytes) (s : Engine world.store) → IsUntouched world s (btree_get world key s).1
  unfolding btree_get
  btree_get-IsUntouched key s =
      let tree = get_keeps world.store world.depth key s.btree in
      record {
        cache = tree.0;
        wal = tree.1;
        pages = tree.2;
        version = refl;
        transactions = refl;
        schemas = refl;
        indices = refl;
      }

  pub read_current-IsUntouched :
      (key : Bytes) (s : Engine world.store) → IsUntouched world s (read_current world key s).1
  unfolding read_current btree_get
  read_current-IsUntouched key s =
      let tier = get_lem key s.btree.memory_tier in
      let below = record s.btree { memory_tier = (MemoryTier.get key s.btree.memory_tier).1 } in
      let tree = get_keeps world.store world.depth key below in
      elim (Option-cases (MemoryTier.get key s.btree.memory_tier).0) [
        | inl miss ↦
            rw (miss, read_current)
              (record {
                cache = tree.0 ∙ tier.1;
                wal = tree.1;
                pages = tree.2;
                version = refl;
                transactions = refl;
                schemas = refl;
                indices = refl;
              })
        | inr (value, hit) ↦
            rw (hit, read_current)
              (record {
                cache = tier.1;
                wal = refl;
                pages = refl;
                version = refl;
                transactions = refl;
                schemas = refl;
                indices = refl;
              })
      ]
