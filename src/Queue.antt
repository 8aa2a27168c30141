-- ===== src/Queue.antt =====
-- include/rkavp/bounded_queue.hpp. A method that waits on a condition variable is a partial step:
-- `none` means that the caller sleeps, with the queue unchanged, until the same call is made
-- again after a wake-up. Output pointers are results.
pub mod Order
pub mod Policies
use rk_avp.Prelude.{
  ℕ, suc, ◌+◌, ◌≡◌, Bool, true, false, ◌||◌, List, [], ◌∷◌, ◌++◌, Option, none, some, length, ltb,
  leb, ◌==◌, if◌then◌else◌, rest,
}

pub data QueuePolicy : Type 0 where
  block drop_oldest drop_newest : QueuePolicy

pub record BoundedQueue {ℓ} (A : Type ℓ) : Type ℓ where
  pub capacity : ℕ
  pub policy : QueuePolicy
  pub queue : List A
  pub closed : Bool

-- The queue, what `Push` returns, and what it stores in `dropped`.
abbrev pub Pushed {ℓ} : Type ℓ → Type ℓ
Pushed A = BoundedQueue A × Bool × Bool

module _ {ℓ} {A : Type ℓ} where
  unfoldable pub make_queue : ℕ → QueuePolicy → BoundedQueue A
  make_queue capacity policy = record {
    capacity = capacity;
    policy = policy;
    queue = [];
    closed = false;
  }

  abbrev pub push_back : BoundedQueue A → A → BoundedQueue A
  push_back q v = record q { queue = q.queue ++ v ∷ [] }

  abbrev pub pop_front : BoundedQueue A → BoundedQueue A
  pop_front q = record q { queue = rest q.queue }

  abbrev pub is_full : BoundedQueue A → Bool
  is_full q = leb q.capacity (length q.queue)

  -- The part of `Push` below the test of `closed_`.
  push_by : QueuePolicy → BoundedQueue A → A → Option (Pushed A)
  push_by block q v = if is_full q then none else some (push_back q v, true, false)
  push_by drop_oldest q v =
      if is_full q
      then some (push_back (pop_front q) v, true, true)
      else some (push_back q v, true, false)
  push_by drop_newest q v =
      if is_full q then some (q, false, true) else some (push_back q v, true, false)

  unfoldable pub push : BoundedQueue A → A → Option (Pushed A)
  unfolding push_by
  push q v = if q.capacity == 0 || q.closed then some (q, false, false) else push_by q.policy q v

  unfoldable pub push_control : BoundedQueue A → A → Pushed A
  push_control q v =
      if q.capacity == 0 || q.closed
      then (q, false, false)
      else if is_full q
      then (push_back (pop_front q) v, true, true)
      else (push_back q v, true, false)

  -- The value of `TryPop`; `none` when the queue is empty.
  unfoldable pub try_pop : BoundedQueue A → BoundedQueue A × Option A
  try_pop q = elim q.queue [ [] ↦ (q, none) | v ∷ vs ↦ (record q { queue = vs }, some v) ]

  unfoldable pub wait_pop : BoundedQueue A → Option (BoundedQueue A × Option A)
  unfolding try_pop
  wait_pop q = elim q.queue [
    | [] ↦ if q.closed then some (q, none) else none
    | v ∷ vs ↦ some (record q { queue = vs }, some v)
  ]

  unfoldable pub close : BoundedQueue A → BoundedQueue A
  close q = record q { closed = true }
