-- ===== src/Scheduler/Tasks.antt =====
-- What happens to the tasks of a scheduler over any sequence of posts, turns, ends and stops.
use mathlib.Core.List.{append-nil, append_assoc}
use rk_avp.Prelude.{
  suc, ◌≤◌, ◌≡◌, refl, ap, sym, ◌∙◌, Bool, true, List, [], ◌∷◌, ◌++◌, some, if◌then◌else◌, length,
  ℤ, All, arith, ◌↔◌,
}
use rk_avp.Status.{is_ok}
use rk_avp.Scheduler.{
  TaskEntry, Scheduler, Turn, runs, Ending, post_impl, post, post_guaranteed, turn, finish, stop,
  post_task,
}

pub data Action {ℓ} (T : Type ℓ) : Type ℓ where
  posts : T → ℤ → Bool → Action T
  turns : Action T
  finishes : TaskEntry T → ℤ → Ending → Action T
  stops : Bool → Action T

-- What one action accepts, and what a worker takes to run.
pub record Effect {ℓ} (T : Type ℓ) : Type ℓ where
  pub after : Scheduler T
  pub accepted : List T
  pub taken : List T

module _ {ℓ} {T : Type ℓ} where
  abbrev pub tasks_of : List (TaskEntry T) → List T
  tasks_of [] = []
  tasks_of (e ∷ es) = e.task ∷ tasks_of es

  abbrev task_of : Turn T → List T
  task_of (runs e) = e.task ∷ []
  task_of _ = []

  unfoldable pub act : Scheduler T → Action T → Effect T
  act s (posts t now enforce) =
      let (s', status) = post_impl s (some t) now enforce in
      record { after = s'; accepted = if is_ok status then t ∷ [] else []; taken = [] }
  act s turns = let (s', t) = turn s in record { after = s'; accepted = []; taken = task_of t }
  act s (finishes e now ending) = record {
    after = finish s e now ending;
    accepted = [];
    taken = [];
  }
  act s (stops drain) = record { after = stop s drain; accepted = []; taken = [] }

  unfoldable pub act_all : Scheduler T → List (Action T) → Effect T
  act_all s [] = record { after = s; accepted = []; taken = [] }
  act_all s (a ∷ later_actions) =
      let first = act s a in
      let later = act_all first.after later_actions in
      record {
        after = later.after;
        accepted = first.accepted ++ later.accepted;
        taken = first.taken ++ later.taken;
      }

  abbrev pub drains : Action T → Bool
  drains (stops drain) = drain
  drains _ = true

  tasks_of-append : (xs ys : List (TaskEntry T)) → tasks_of (xs ++ ys) ≡ tasks_of xs ++ tasks_of ys
  tasks_of-append [] ys = refl
  tasks_of-append (x ∷ xs) ys = ap (λ l. x.task ∷ l) (tasks_of-append xs ys)

  act_in_order :
      (s : Scheduler T) (a : Action T)
      → drains a ≡ true
      → (act s a).taken ++ tasks_of (act s a).after.tasks ≡ tasks_of s.tasks ++ (act s a).accepted
  unfolding act post_impl post_task turn finish stop
  act_in_order s (posts t now enforce) h = ground (
    arith,
    append-nil (tasks_of s.tasks),
    tasks_of-append s.tasks (record { task = t; enqueued_us = now } ∷ []),
  )
  act_in_order s turns h = ground (arith, append-nil (tasks_of s.tasks))
  act_in_order s (finishes e now ending) h = sym (append-nil (tasks_of s.tasks))
  act_in_order s (stops drain) h = ground (arith, append-nil (tasks_of s.tasks))

  -- Without a `Stop` that discards tasks, the workers take the accepted tasks in the order of
  -- their posts, each once: what was taken, then what waits, is what waited, then what was
  -- accepted.
  pub act_all_in_order :
      (s : Scheduler T) (actions : List (Action T))
      → All (λ a. drains a ≡ true) actions
      → let e = act_all s actions in
        e.taken ++ tasks_of e.after.tasks ≡ tasks_of s.tasks ++ e.accepted
  unfolding act_all
  act_all_in_order s [] h = sym (append-nil (tasks_of s.tasks))
  act_all_in_order s (a ∷ later_actions) h =
      let first = act s a in
      let later = act_all first.after later_actions in
      append_assoc first.taken later.taken (tasks_of later.after.tasks)
      ∙ ap (λ l. first.taken ++ l) (act_all_in_order first.after later_actions h.1)
      ∙ sym (append_assoc first.taken (tasks_of first.after.tasks) later.accepted)
      ∙ ap (λ l. l ++ later.accepted) (act_in_order s a h.0)
      ∙ append_assoc (tasks_of s.tasks) first.accepted later.accepted

  -- A task that `PostGuaranteed` is given is accepted exactly when the scheduler runs, however
  -- many tasks wait; `Post` asks for room as well.
  post_lem :
      (s : Scheduler T) (t : T) (now : ℤ)
      → ((is_ok (post_guaranteed s (some t) now).1 ≡ true) ↔ (s.running ≡ true))
        × ((is_ok (post s (some t) now).1 ≡ true)
            ↔ ((s.running ≡ true) × (suc (length s.tasks) ≤ s.queue_capacity)))
  unfolding post post_guaranteed post_impl post_task
  post_lem s t now =
      (((λ h. ground arith), (λ h. ground arith)), ((λ h. ground arith), (λ h. ground arith)))
