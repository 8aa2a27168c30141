-- ===== src/Tests/Drains.antt =====
-- Interleavings of pushes and drains of src/core/graph_runner.cpp.
use rk_avp.Prelude.{ℕ, ◌+◌, ◌≤◌, ◌≡◌, ◌⊎◌, refl, true, false, List, [], ◌∷◌, ◌++◌, some}
use rk_avp.Queue.{BoundedQueue, block, push, try_pop}
use rk_avp.Runner.Drain.{
  Lane, Step, pushes, exchanges, posts, pops, resets, checks, step, steps, idle_lane,
}
use rk_avp.Runner.Drain.Wakeups.{Quiet, accepted_in, steps_exclusive, steps_drained, steps_in_order}

abbrev empty_queue : BoundedQueue ℕ
empty_queue = record { capacity = 4; policy = block; queue = []; closed = false }

-- Two pushes; the second comes while the first is delivered, and the drain posts itself again.
abbrev two_pushes : List (Step ℕ)
two_pushes =
    pushes 1
    ∷ exchanges
    ∷ posts
    ∷ pops
    ∷ pushes 2
    ∷ exchanges
    ∷ resets
    ∷ checks
    ∷ exchanges
    ∷ posts
    ∷ pops
    ∷ resets
    ∷ checks
    ∷ []

abbrev both_delivered : Lane ℕ
both_delivered = record (idle_lane empty_queue) { delivered = 1 ∷ 2 ∷ [] }

delivers_both : steps (idle_lane empty_queue) two_pushes ≡ some both_delivered
unfolding steps step push try_pop
delivers_both = refl

steps_exclusive_example : both_delivered.posted + both_delivered.delivering ≤ 1
steps_exclusive_example = steps_exclusive empty_queue two_pushes both_delivered refl delivers_both

quiet : Quiet both_delivered
unfolding step
quiet = record {
  no_exchange = refl;
  no_post = refl;
  no_pop = refl;
  no_reset = refl;
  no_check = refl;
}

steps_drained_example : (both_delivered.queue.queue ≡ []) ⊎ (both_delivered.cancelled ≡ true)
steps_drained_example = steps_drained empty_queue two_pushes both_delivered refl delivers_both quiet

steps_in_order_example :
    1 ∷ 2 ∷ [] ++ [] ≡ ([] ++ []) ++ accepted_in (idle_lane empty_queue) two_pushes
steps_in_order_example =
    steps_in_order (idle_lane empty_queue) both_delivered two_pushes refl
      (
        refl,
        (
          refl,
          (
            refl,
            (refl, (refl, (refl, (refl, (refl, (refl, (refl, (refl, (refl, (refl, tt)))))))))),
          ),
        ),
      )
      delivers_both
