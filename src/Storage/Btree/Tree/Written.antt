-- ===== src/Storage/Btree/Tree/Written.antt =====
-- src/storage/btree.rs: an insertion whose path meets no full node, and the lookups after it.
use kssql.Common.{
  ℕ, suc, ◌<◌, ◌≡◌, ◌≢◌, refl, sym, ap, ◌∙◌, subst, false, some, Bytes, get_elem?, ◌==◌, ==_iff,
  arith, inl, inr, Bool-cases,
}
use kssql.Common.Result.{ok}
use kssql.Common.Exec.{gets, ◌>>=◌, >>=-ok}
use kssql.Storage.Btree.Node.{Node, leaf, internal, child_index}
use kssql.Storage.Btree.Store.{Store, IsStore}
use kssql.Storage.Btree.Tree.{or_panic, lift, leaf_insert, choose_child, insert_non_full}
use kssql.Storage.Btree.Tree.Route.{Route, at_leaf, down, Route-leaf}

module _ (store : Store) where
  open store use {State, load, save, count, is_full}

  abbrev pub IsRoomy : Node → Type 0
  IsRoomy node = is_full node ≡ false

  -- Nothing but this page is another, and it holds this node.
  pub record IsWritten (s t : State) (page : ℕ) (node : Node) : Type 0 where
    pub written : load t page ≡ ok node
    pub kept : (q : ℕ) (old : Node) → q ≢ page → q < count s → load s q ≡ ok old → load t q ≡ ok old
    pub same_count : count t ≡ count s

  pub kinds_differ :
      (s : State) (p q : ℕ) (a b : Node)
      → load s p ≡ ok a
      → load s q ≡ ok b
      → a.node_type ≡ internal
      → b.node_type ≡ leaf
      → p ≢ q
  kinds_differ s p q a b at there inner outer same =
      let e : a ≡ b = cc in absurd (ground (arith, ap (λ n. n.node_type) e, inner, outer))

  module _ (IsValid : State → Type 0) (laws : IsStore store IsValid) where
    saved-IsWritten :
        (s : State) (page : ℕ) (node : Node)
        → IsValid s
        → page < count s
        → (save page node s).0 ≡ ok tt
        → IsWritten s (save page node s).1 page node × IsValid (save page node s).1
    saved-IsWritten s page node valid old done = (
      record {
        written = laws.load-save page node s valid done;
        kept = λ q was ne lt at. laws.load-save_ne page q node was s valid done ne lt at;
        same_count = laws.count-save page node s valid done old;
      },
      laws.save-IsValid page node s valid done old,
    )

    -- Saving an inner node as it is, after the leaf has been written, changes nothing more.
    resaved-IsWritten :
        (s t : State) (page start : ℕ) (node inner : Node)
        → IsWritten s t page node
        → IsValid t
        → page < count s
        → start < count s
        → start ≢ page
        → load s start ≡ ok inner
        → (save start inner t).0 ≡ ok tt
        → IsWritten s (save start inner t).1 page node × IsValid (save start inner t).1
    resaved-IsWritten s t page start node inner w valid old_page old ne at done =
        let below : start < count t = subst (λ n. start < n) (sym w.same_count) old in
        (
          record {
            written =
                laws.load-save_ne start page inner node t valid done (λ e. ne (sym e))
                  (subst (λ n. page < n) (sym w.same_count) old_page) w.written;
            kept = λ q was differs lt there. elim (Bool-cases (q == start)) [
              | inl here ↦
                  let e : q ≡ start = (==_iff q start).0 here in
                  let f : ok inner ≡ ok was = sym at ∙ sym (ap (load s) e) ∙ there in
                  ap (load (save start inner t).1) e ∙ laws.load-save start inner t valid done ∙ f
              | inr away ↦
                  laws.load-save_ne start q inner was t valid done
                    (λ e. absurd (ground (arith, e, away, ==_iff q start)))
                    (subst (λ n. q < n) (sym w.same_count) lt) (w.kept q was differs lt there)
            ];
            same_count = laws.count-save start inner t valid done below ∙ w.same_count;
          },
          laws.save-IsValid start inner t valid done below,
        )

    leaf_run :
        (d start : ℕ) (node node' : Node) (key value : Bytes) (s : State)
        → node.node_type ≡ leaf
        → leaf_insert key value node ≡ some node'
        → insert_non_full store (suc d) start node key value s ≡ save start node' s
    unfolding insert_non_full
    leaf_run d start node node' key value s kind put = rw (insert_non_full, kind, put) refl

    inner_step :
        (d start : ℕ) (inner : Node) (key value : Bytes) (s : State)
        → inner.node_type ≡ internal
        → insert_non_full store (suc d) start inner key value s
          ≡ (lift store (or_panic (get_elem? inner.children (child_index inner key)))
                >>= λ child_id. gets (λ t. load t child_id) >>= λ child.
                    choose_child store key (child_index inner key) inner child_id child
                    >>= λ chosen. insert_non_full store d chosen.1 chosen.2 key value >>= λ _.
                        save start chosen.0)
              s
    unfolding insert_non_full
    inner_step d start inner key value s kind = simp (insert_non_full, kind) refl

    inner_run :
        (d start child : ℕ) (inner below : Node) (key value : Bytes) (s : State)
        → inner.node_type ≡ internal
        → get_elem? inner.children (child_index inner key) ≡ some child
        → load s child ≡ ok below
        → is_full below ≡ false
        → insert_non_full store (suc d) start inner key value s
          ≡ (insert_non_full store d child below key value >>= λ _. save start inner) s
    unfolding insert_non_full choose_child
    inner_run d start child inner below key value s kind next there roomy =
        inner_step d start inner key value s kind ∙ rw (next, there, choose_child, roomy) refl

    pub insert_non_full-IsWritten :
        (s : State) (key value : Bytes) (page : ℕ) (node node' top : Node) {start depth : ℕ}
        → IsValid s
        → Route store IsRoomy s key page node start depth
        → leaf_insert key value node ≡ some node'
        → load s start ≡ ok top
        → (insert_non_full store depth start top key value s).0 ≡ ok tt
        → IsWritten s (insert_non_full store depth start top key value s).1 page node'
          × IsValid (insert_non_full store depth start top key value s).1
    insert_non_full-IsWritten s key value page node node' top valid
          (at_leaf {start = start} {depth = d} same old at kind) put here done =
        let e : top ≡ node = cc in
        let run =
          ap (λ n. insert_non_full store (suc d) start n key value s) e
          ∙ leaf_run d start node node' key value s kind put in
        let (w, valid') =
          saved-IsWritten s start node' valid old (sym (ap (λ r. r.0) run) ∙ done) in
        (
          subst (λ q. IsWritten s (insert_non_full store (suc d) start top key value s).1 q node')
              same (subst (λ r. IsWritten s r.1 start node') (sym run) w),
          subst (λ r. IsValid r.1) (sym run) valid',
        )
    insert_non_full-IsWritten s key value page node node' top valid
          (down {start = start} {child = child} {depth = d} inner below old at kind next there roomy
            rest)
          put here done =
        let e : top ≡ inner = cc in
        let run =
          ap (λ n. insert_non_full store (suc d) start n key value s) e
          ∙ inner_run d start child inner below key value s kind next there roomy in
        let (u, fine, on) =
          >>=-ok (insert_non_full store d child below key value) (λ _. save start inner) s tt
            (sym (ap (λ r. r.0) run) ∙ done) in
        let t = (insert_non_full store d child below key value s).1 in
        let (w, valid') =
          insert_non_full-IsWritten s key value page node node' below valid rest put there fine in
        let (old_page, at_page, outer) = Route-leaf store IsRoomy s key page node rest in
        subst (λ r. IsWritten s r.1 page node' × IsValid r.1) (sym (run ∙ on))
          (resaved-IsWritten s t page start node' inner w valid' old_page old
            (kinds_differ s start page inner node at at_page kind outer) at
            (sym (ap (λ r. r.0) (run ∙ on)) ∙ done))
