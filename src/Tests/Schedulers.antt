-- ===== src/Tests/Schedulers.antt =====
-- Runs of the scheduler of src/core/scheduler.cpp.
use rk_avp.Prelude.{ℕ, ◌≡◌, if◌then◌else◌, refl, Bool, true, false, List, [], ◌∷◌, ◌++◌, pos}
use rk_avp.Status.{Status, is_ok}
use rk_avp.Status
use rk_avp.Scheduler.{Scheduler, turn}
use rk_avp.Scheduler.Tasks.{Action, posts, turns, stops, act_all, tasks_of, act_all_in_order}
use rk_avp.Scheduler.Stopping.{Threads, Move, not_yet, notified, moves_from, move}
use rk_avp.Scheduler.Stopping

abbrev busy : Scheduler ℕ
busy = record {
  worker_count = 1;
  queue_capacity = 2;
  name = "default";
  running = true;
  drain = true;
  tasks = [];
  active_tasks = 0;
  workers = 1;
  last_error = Status.ok;
  starvation_events = 0;
  max_wait_us = pos 0;
}

abbrev actions : List (Action ℕ)
actions =
    posts 1 (pos 5) true
    ∷ posts 2 (pos 6) true
    ∷ posts 3 (pos 7) true
    ∷ turns
    ∷ stops true
    ∷ turns
    ∷ []

act_all_in_order_example :
    (act_all busy actions).taken ++ tasks_of (act_all busy actions).after.tasks
    ≡ [] ++ (act_all busy actions).accepted
act_all_in_order_example =
    act_all_in_order busy actions (refl, (refl, (refl, (refl, (refl, (refl, tt))))))

abbrev one_worker : Bool → Threads ℕ
one_worker deciding = record {
  scheduler = busy;
  looping = if deciding then 0 else 1;
  deciding = deciding;
  asleep = 0;
  phase = not_yet;
}

abbrev stopping : List (Move ℕ)
stopping =
    Stopping.looks
    ∷ Stopping.stops false
    ∷ Stopping.falls_asleep
    ∷ Stopping.empties
    ∷ Stopping.notifies
    ∷ Stopping.looks
    ∷ []

has_notified : (moves_from (one_worker false) stopping).phase ≡ notified
unfolding moves_from move turn
has_notified = refl
