-- ===== src/Storage/Wal/Enqueue.antt =====
-- src/storage/wal.rs: `enqueue` tries again, up to 1,001 times, while the queue is full.
use native.Mathlib.Decide.{dec_lt}
use kssql.Common.{
  ℕ, zero, suc, ◌+◌, ◌<◌, ◌≤◌, ◌≡◌, ◌⊎◌, inl, inr, refl, ◌∙◌, Option, some, List, [], ◌∷◌, ◌++◌,
  length, arith,
}
use kssql.Common.Result.{Result, ok, err, queue_saturated}
use kssql.Storage.Wal.Frame.{WalEntry}
use kssql.Storage.Wal.Queue.{enqueue_loop, queue_capacity}

-- The fuel is one more than the 1,002 attempts need at most: it never runs out (`enqueue_lem`).
unfoldable pub enqueue :
    (ℕ → List WalEntry → List WalEntry) → WalEntry → List WalEntry → Option (Result (List WalEntry))
unfolding enqueue_loop
enqueue others entry queue = enqueue_loop others 1002 0 entry queue

module _ (others : ℕ → List WalEntry → List WalEntry) where
  -- The queue at the attempt after `n` more sleeps, of which the first is the `retries`-th.
  abbrev pub queue_after : ℕ → ℕ → List WalEntry → List WalEntry
  queue_after retries zero queue = queue
  queue_after retries (suc n) queue = queue_after (retries + 1) n (others retries queue)

module _ (others : ℕ → List WalEntry → List WalEntry) (entry : WalEntry) where
  pub enqueue_room :
      (fuel retries : ℕ) (queue : List WalEntry)
      → length queue < queue_capacity
      → enqueue_loop others (suc fuel) retries entry queue ≡ some (ok (queue ++ entry ∷ []))
  unfolding enqueue_loop
  enqueue_room fuel retries queue h = ground arith

  enqueue_last :
      (fuel retries : ℕ) (queue : List WalEntry)
      → queue_capacity ≤ length queue
      → 1000 < retries
      → enqueue_loop others (suc fuel) retries entry queue ≡ some (err queue_saturated)
  unfolding enqueue_loop
  enqueue_last fuel retries queue h k = ground arith

  enqueue_again :
      (fuel retries : ℕ) (queue : List WalEntry)
      → queue_capacity ≤ length queue
      → retries ≤ 1000
      → enqueue_loop others (suc fuel) retries entry queue
        ≡ enqueue_loop others fuel (retries + 1) entry (others retries queue)
  unfolding enqueue_loop
  enqueue_again fuel retries queue h k = ground arith

  all_full :
      (fuel retries : ℕ) (queue : List WalEntry)
      → queue_capacity ≤ length queue
      → ((n : ℕ)
          → n < fuel
          → queue_capacity ≤ length (queue_after others (retries + 1) n (others retries queue)))
      → (n : ℕ) → n < suc fuel
      → queue_capacity ≤ length (queue_after others retries n queue)
  all_full fuel retries queue h rest zero k = h
  all_full fuel retries queue h rest (suc n) k = rest n (omega arith)

  enqueue_loop_lem :
      (fuel retries : ℕ) (queue : List WalEntry)
      → retries ≤ 1001
      → retries + fuel ≡ 1001
      → ((n : ℕ) × (n < suc fuel)
          × (length (queue_after others retries n queue) < queue_capacity)
          × (enqueue_loop others (suc fuel) retries entry queue
              ≡ some (ok (queue_after others retries n queue ++ entry ∷ []))))
        ⊎ (((n : ℕ) → n < suc fuel → queue_capacity ≤ length (queue_after others retries n queue))
            × (enqueue_loop others (suc fuel) retries entry queue ≡ some (err queue_saturated)))
  enqueue_loop_lem zero retries queue h e = elim (dec_lt (length queue) queue_capacity) [
    | yes room ↦ inl (0, omega arith, room, enqueue_room zero retries queue room)
    | no full ↦ inr (
      all_full zero retries queue (omega arith) (λ n k. elim k [ ]),
      enqueue_last zero retries queue (omega arith) (omega arith),
    )
  ]
  enqueue_loop_lem (suc fuel) retries queue h e = elim (dec_lt (length queue) queue_capacity) [
    | yes room ↦ inl (0, omega arith, room, enqueue_room (suc fuel) retries queue room)
    | no full ↦
        let again = enqueue_again (suc fuel) retries queue (omega arith) (omega arith) in
        elim (enqueue_loop_lem fuel (retries + 1) (others retries queue) (omega arith)
          (omega arith)) [
            | inl (n, lt, room, done) ↦ inl (suc n, omega arith, room, again ∙ done)
            | inr (never, done) ↦
                inr (all_full (suc fuel) retries queue (omega arith) never, again ∙ done)
          ]
  ]

-- `enqueue` always returns. Either one of the 1,002 attempts finds room, and the entry is added
-- behind the queue of that moment; or the queue is full at every one of them, and the error is that
-- of a saturated queue.
pub enqueue_lem :
    (others : ℕ → List WalEntry → List WalEntry) (entry : WalEntry) (queue : List WalEntry)
    → ((n : ℕ) × (n < 1002)
        × (length (queue_after others 0 n queue) < queue_capacity)
        × (enqueue others entry queue ≡ some (ok (queue_after others 0 n queue ++ entry ∷ []))))
      ⊎ (((n : ℕ) → n < 1002 → queue_capacity ≤ length (queue_after others 0 n queue))
          × (enqueue others entry queue ≡ some (err queue_saturated)))
unfolding enqueue
enqueue_lem others entry queue = enqueue_loop_lem others entry 1001 0 queue (omega arith) refl
