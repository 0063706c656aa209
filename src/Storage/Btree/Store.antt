-- ===== src/Storage/Btree/Store.antt =====
-- src/storage/btree.rs: what the tree needs of the pages, as an interface: `read_page` with
-- `from_bytes`, `save_node`, `allocate_page` and `sync`.
use kssql.Common.{ℕ, suc, ◌<◌, ◌^◌, ◌≡◌, ◌≢◌, Bool}
use kssql.Common.Result.{Result, ok}
use kssql.Storage.Btree.Node.{Node}

pub record Store : Type 1 where
  pub State : Type 0
  -- the number of pages
  pub count : State → ℕ
  pub load : State → ℕ → Result Node
  pub save : ℕ → Node → State → Result (Unit {0}) × State
  pub allocate : State → Result ℕ × State
  pub sync : State → Result (Unit {0})
  pub is_full : Node → Bool

-- In the states that are valid: a saved node is read back, the other pages stay, and a new page is none of
-- those there were. A page below the number of pages may be saved, and a page may be allocated while the
-- ids of the pages, with the new one, are below the last `u32`: then the state is valid again.
pub record IsStore (store : Store) (IsValid : store.State → Type 0) : Type 0 where
  pub load-save :
      (id : ℕ) (node : Node) (s : store.State)
      → IsValid s
      → (store.save id node s).0 ≡ ok tt
      → store.load (store.save id node s).1 id ≡ ok node
  pub load-save_ne :
      (id other : ℕ) (node old : Node) (s : store.State)
      → IsValid s
      → (store.save id node s).0 ≡ ok tt
      → other ≢ id
      → other < store.count s
      → store.load s other ≡ ok old
      → store.load (store.save id node s).1 other ≡ ok old
  pub count-save :
      (id : ℕ) (node : Node) (s : store.State)
      → IsValid s
      → (store.save id node s).0 ≡ ok tt
      → id < store.count s
      → store.count (store.save id node s).1 ≡ store.count s
  pub save-IsValid :
      (id : ℕ) (node : Node) (s : store.State)
      → IsValid s
      → (store.save id node s).0 ≡ ok tt
      → id < store.count s
      → IsValid (store.save id node s).1
  pub allocate-count :
      (id : ℕ) (s : store.State) → (store.allocate s).0 ≡ ok id → id ≡ store.count s
  pub count-allocate :
      (id : ℕ) (s : store.State)
      → IsValid s
      → suc (store.count s) < 2 ^ 32
      → (store.allocate s).0 ≡ ok id
      → store.count (store.allocate s).1 ≡ suc (store.count s)
  pub allocate-IsValid :
      (id : ℕ) (s : store.State)
      → IsValid s
      → suc (store.count s) < 2 ^ 32
      → (store.allocate s).0 ≡ ok id
      → IsValid (store.allocate s).1
  pub load-allocate :
      (id other : ℕ) (old : Node) (s : store.State)
      → IsValid s
      → suc (store.count s) < 2 ^ 32
      → (store.allocate s).0 ≡ ok id
      → other < store.count s
      → store.load s other ≡ ok old
      → store.load (store.allocate s).1 other ≡ ok old
