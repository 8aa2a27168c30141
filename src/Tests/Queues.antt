-- ===== src/Tests/Queues.antt =====
-- Runs of the bounded queue of include/rkavp/bounded_queue.hpp.
use rk_avp.Prelude.{ℕ, ◌≤◌, ◌≡◌, refl, true, false, List, [], ◌∷◌, ◌++◌, length, arith}
use rk_avp.Queue.{
  BoundedQueue, QueuePolicy, block, drop_oldest, push, push_control, try_pop, wait_pop, close,
}
use rk_avp.Queue.Order.{
  Call, pushes, pushes_control, pops, waits_for, closes, run, call, run-InOrder, run-Within,
}
use rk_avp.Queue.Policies.{push_all, push_all-drop_oldest}

abbrev two_items : QueuePolicy → BoundedQueue ℕ
two_items policy = record { capacity = 2; policy = policy; queue = 1 ∷ 2 ∷ []; closed = false }

abbrev calls : List (Call ℕ)
calls = pushes 3 ∷ pops ∷ pushes_control 4 ∷ waits_for ∷ closes ∷ pushes 5 ∷ []

evicts_oldest : (run (two_items drop_oldest) calls).removed ≡ 1 ∷ 2 ∷ 3 ∷ []
unfolding run call push push_control try_pop wait_pop close
evicts_oldest = refl

run-InOrder_example :
    (run (two_items drop_oldest) calls).removed ++ (run (two_items drop_oldest) calls).after.queue
    ≡ 1 ∷ 2 ∷ [] ++ (run (two_items drop_oldest) calls).accepted
run-InOrder_example = run-InOrder (two_items drop_oldest) calls

run-Within_example :
    (length (run (two_items block) calls).after.queue
      ≤ (run (two_items block) calls).after.capacity)
    × ((run (two_items block) calls).after.capacity ≡ 2)
run-Within_example = run-Within (two_items block) calls (omega arith)

abbrev closed_queue : BoundedQueue ℕ
closed_queue = record { capacity = 2; policy = block; queue = 1 ∷ 2 ∷ []; closed = true }

push_all-drop_oldest_example :
    (push_all (two_items drop_oldest) (3 ∷ 4 ∷ 5 ∷ [])).queue ≡ 4 ∷ 5 ∷ []
push_all-drop_oldest_example =
    push_all-drop_oldest (two_items drop_oldest) (3 ∷ 4 ∷ 5 ∷ []) refl
      (refl, omega arith, omega arith)
