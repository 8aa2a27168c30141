-- ===== src/Scheduler.antt =====
-- include/rkavp/scheduler.hpp and src/core/scheduler.cpp. A task is a value of the type `T`; what it
-- does when it runs, and what the clock says, are arguments. The part of `WorkerLoop` under the
-- lock is `turn`, the part after the task is `finish`.
pub mod Tasks
pub mod Stopping
use rk_avp.Prelude.{
  ℕ, zero, suc, ◌+◌, ◌-◌, Bool, true, false, ◌&&◌, ◌||◌, not, List, [], ◌∷◌, ◌++◌, Option, none,
  some, String, if◌then◌else◌, is_empty, length, leb, ◌==◌, ℤ, pos, ◌-ℤ◌, max_ℤ, leb_ℤ,
}
use rk_avp.Status.{Status, is_ok, ◌+s◌}
use rk_avp.Status

pub record TaskEntry {ℓ} (T : Type ℓ) : Type ℓ where
  pub task : T
  pub enqueued_us : ℤ

pub record Scheduler {ℓ} (T : Type ℓ) : Type ℓ where
  pub worker_count : ℕ
  pub queue_capacity : ℕ
  pub name : String
  pub running : Bool
  pub drain : Bool
  pub tasks : List (TaskEntry T)
  pub active_tasks : ℕ
  pub workers : ℕ  -- threads of `workers_` that have not ended
  pub last_error : Status
  pub starvation_events : ℕ
  pub max_wait_us : ℤ

abbrev pub starvation_threshold_us : ℤ
starvation_threshold_us = pos 100000

-- What a worker does next.
pub data Turn {ℓ} (T : Type ℓ) : Type ℓ where
  sleeps exits retries : Turn T
  runs : TaskEntry T → Turn T

-- How a task ends: normally, with a `std::exception`, or with anything else thrown.
pub data Ending : Type 0 where
  returns throws_unknown : Ending
  throws : String → Ending

abbrev pub error_of : Ending → Option Status
error_of returns = none
error_of (throws what) = some (Status.internal ("scheduler task failed: " +s what))
error_of throws_unknown = some (Status.internal "scheduler task failed with an unknown exception")

-- The first error is kept.
abbrev pub keep_first : Status → Option Status → Status
keep_first first none = first
keep_first first (some later) = if is_ok first then later else first

module _ {ℓ} {T : Type ℓ} where
  unfoldable pub make_scheduler : ℕ → ℕ → String → Scheduler T
  make_scheduler worker_count queue_capacity name = record {
    worker_count = if worker_count == 0 then 1 else worker_count;
    queue_capacity = if queue_capacity == 0 then 1 else queue_capacity;
    name = name;
    running = false;
    drain = true;
    tasks = [];
    active_tasks = 0;
    workers = 0;
    last_error = Status.ok;
    starvation_events = 0;
    max_wait_us = pos 0;
  }

  unfoldable pub start : Scheduler T → Scheduler T × Status
  start s = if s.running then (s, Status.already_exists "scheduler is already running") else (
    record s {
      running = true;
      drain = true;
      starvation_events = 0;
      max_wait_us = pos 0;
      last_error = Status.ok;
      workers = s.worker_count;
    },
    Status.ok,
  )

  post_task : Scheduler T → T → ℤ → Bool → Scheduler T × Status
  post_task s task now enforce_capacity =
      if not s.running
      then (s, Status.failed_precondition "scheduler is not running")
      else if enforce_capacity && leb s.queue_capacity (length s.tasks)
      then (s, Status.unavailable ("executor queue is full: " +s s.name))
      else (
        record s { tasks = s.tasks ++ record { task = task; enqueued_us = now } ∷ [] },
        Status.ok,
      )

  -- `none` is an empty `std::function`.
  unfoldable pub post_impl : Scheduler T → Option T → ℤ → Bool → Scheduler T × Status
  unfolding post_task
  post_impl s none now enforce_capacity = (s, Status.invalid "scheduler task is empty")
  post_impl s (some task) now enforce_capacity = post_task s task now enforce_capacity

  unfoldable pub post : Scheduler T → Option T → ℤ → Scheduler T × Status
  unfolding post_impl
  post s task now = post_impl s task now true

  unfoldable pub post_guaranteed : Scheduler T → Option T → ℤ → Scheduler T × Status
  unfolding post_impl
  post_guaranteed s task now = post_impl s task now false

  -- A worker at the wait, with the lock.
  unfoldable pub turn : Scheduler T → Scheduler T × Turn T
  turn s =
      if s.running && is_empty s.tasks
      then (s, sleeps)
      else if not s.running && (not s.drain || is_empty s.tasks)
      then (record s { workers = s.workers - 1 }, exits)
      else elim s.tasks [
        | [] ↦ (s, retries)
        | e ∷ es ↦ (record s { tasks = es; active_tasks = suc s.active_tasks }, runs e)
      ]

  -- After the lock is released: `now` is the time before the task runs.
  unfoldable pub finish : Scheduler T → TaskEntry T → ℤ → Ending → Scheduler T
  finish s e now ending =
      let wait_us = max_ℤ (pos 0) (now -ℤ e.enqueued_us) in
      record s {
        max_wait_us = max_ℤ s.max_wait_us wait_us;
        starvation_events =
            if leb_ℤ starvation_threshold_us wait_us
            then suc s.starvation_events
            else s.starvation_events;
        last_error = keep_first s.last_error (error_of ending);
        active_tasks = s.active_tasks - 1;
      }

  -- `Stop` up to the joins.
  unfoldable pub stop : Scheduler T → Bool → Scheduler T
  stop s drain =
      if s.running
      then record s { running = false; drain = drain; tasks = if drain then s.tasks else [] }
      else s

  -- The test that `WaitIdle` waits for.
  unfoldable pub is_idle : Scheduler T → Bool
  is_idle s = is_empty s.tasks && s.active_tasks == 0
