-- ===== src/Runner/Drain.antt =====
-- `ScheduleEdge`, `DrainEdge`, `ScheduleInput` and `DrainInput` of src/core/graph_runner.cpp: how
-- the threads of an executor empty one queue. A `Lane` is an edge or a graph input with the
-- threads that work on it, counted by the line they have reached; each atomic action is a step,
-- and `none` means that no thread is there.
pub mod Wakeups
use rk_avp.Prelude.{
  ℕ, zero, suc, ◌+◌, ◌-◌, Bool, true, false, ◌&&◌, not, List, [], ◌∷◌, ◌++◌, Option, none, some,
  if◌then◌else◌, is_empty,
}
use rk_avp.Queue.{BoundedQueue, push, push_control, try_pop, close}

pub record Lane {ℓ} (A : Type ℓ) : Type ℓ where
  pub queue : BoundedQueue A
  pub scheduled : Bool
  pub cancelled : Bool
  pub scheduling : ℕ  -- before `scheduled.exchange(true)`
  pub posting : ℕ  -- after it returned false, before `PostGuaranteed`
  pub posted : ℕ  -- tasks that the executor holds
  pub delivering : ℕ  -- after `TryPop`, before `scheduled = false`
  pub checking : ℕ  -- after it, before the test of the queue's size
  pub delivered : List A

pub data Step {ℓ} (A : Type ℓ) : Type ℓ where
  pushes pushes_control : A → Step A
  exchanges posts fails_to_post pops resets checks cancels : Step A

abbrev pub idle_lane {ℓ} : {A : Type ℓ} → BoundedQueue A → Lane A
idle_lane q = record {
  queue = q;
  scheduled = false;
  cancelled = false;
  scheduling = 0;
  posting = 0;
  posted = 0;
  delivering = 0;
  checking = 0;
  delivered = [];
}

module _ {ℓ} {A : Type ℓ} where
  -- A push that returned true goes on to schedule.
  abbrev pub pushed : Lane A → Option (BoundedQueue A × Bool × Bool) → Option (Lane A)
  pushed l none = none
  pushed l (some (q, true, dropped)) = some (record l { queue = q; scheduling = suc l.scheduling })
  pushed l (some (q, false, dropped)) = some (record l { queue = q })

  abbrev pub taken : Option A → List A
  taken none = []
  taken (some v) = v ∷ []

  -- `SetError`, as far as it concerns the lane.
  abbrev pub cancel : Lane A → Lane A
  cancel l = record l { cancelled = true; queue = close l.queue }

  unfoldable pub step : Lane A → Step A → Option (Lane A)
  step l (pushes v) = pushed l (push l.queue v)
  step l (pushes_control v) = pushed l (some (push_control l.queue v))
  step l exchanges = elim l.scheduling [
    | zero ↦ none
    | suc n ↦
        if l.scheduled
        then some (record l { scheduling = n })
        else some (record l { scheduling = n; scheduled = true; posting = suc l.posting })
  ]
  step l posts = elim l.posting [
    | zero ↦ none
    | suc n ↦ some (record l { posting = n; posted = suc l.posted })
  ]
  step l fails_to_post = elim l.posting [
    | zero ↦ none
    | suc n ↦ some (cancel (record l { posting = n; scheduled = false }))
  ]
  step l pops = elim l.posted [
    | zero ↦ none
    | suc n ↦ some (record l {
      posted = n;
      queue = (try_pop l.queue).0;
      delivering = suc l.delivering;
      delivered = l.delivered ++ taken (try_pop l.queue).1;
    })
  ]
  step l resets = elim l.delivering [
    | zero ↦ none
    | suc n ↦ some (record l { delivering = n; scheduled = false; checking = suc l.checking })
  ]
  step l checks = elim l.checking [
    | zero ↦ none
    | suc n ↦
        if not l.cancelled && not (is_empty l.queue.queue)
        then some (record l { checking = n; scheduling = suc l.scheduling })
        else some (record l { checking = n })
  ]
  step l cancels = some (cancel l)

  abbrev pub after : Option (Lane A) → (Lane A → Option (Lane A)) → Option (Lane A)
  after none next = none
  after (some l) next = next l

  unfoldable pub steps : Lane A → List (Step A) → Option (Lane A)
  unfolding step
  steps l [] = some l
  steps l (s ∷ ss) = after (step l s) (λ k. steps k ss)
