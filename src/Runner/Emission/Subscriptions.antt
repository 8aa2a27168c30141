-- ===== src/Runner/Emission/Subscriptions.antt =====
-- Which observers the packets of a stream go to, whatever is observed, cancelled and emitted, of
-- src/core/graph_runner.cpp.
use text.Mathlib.TextEquality.{eq_iff}
use rk_avp.Prelude.{
  ℕ, ◌≤◌, ◌≡◌, refl, Bool, true, false, ◌&&◌, ◌||◌, List, [], ◌∷◌, ◌++◌, any, filter, Option, none,
  some, String, ◌==◌, if◌then◌else◌, ◌=?◌, string_keys, nat_keys, arith, inl, inr, Bool-cases,
  Option-cases, if_lem,
}
use rk_avp.Prelude.Maps.{find, assign, find-assign}
use rk_avp.Prelude.Counts.{count, count-append, as_number}
use rk_avp.Packet.{Packet}
use rk_avp.Runner.Observers.{
  ObserverRuntime, ObserverTable, ObserverOptions, ids_of, is_among, without, add_observer,
  cancel_observer, shutdown_observers, new_observer, stop_observer, enqueue_observer, no_observers,
  put_observer,
}
use rk_avp.Runner.Emission.{Emitter, shows, show_to, show_each}

count-without :
    (id k : ℕ) (ids : List ℕ) → count k (without id ids) ≡ (if id == k then 0 else count k ids)
unfolding count filter
count-without id k [] = ground arith
count-without id k (x ∷ xs) = ground (arith, count-without id k xs)

is_among-without :
    (id k : ℕ) (ids : List ℕ)
    → is_among k (without id ids) ≡ (if id == k then false else is_among k ids)
unfolding filter any
is_among-without id k [] = ground arith
is_among-without id k (x ∷ xs) = ground (arith, is_among-without id k xs)

is_among-append :
    (id : ℕ) (xs ys : List ℕ) → is_among id (xs ++ ys) ≡ (is_among id xs || is_among id ys)
unfolding any
is_among-append id [] ys = refl
is_among-append id (x ∷ xs) ys = ground (arith, is_among-append id xs ys)

module _ {D : Type 0} where
  abbrev observes : Option (ObserverRuntime D) → String → Bool
  observes none s = false
  observes (some o) s = o.stream =? s

  -- Whether the number is the handle of an observer of the stream.
  unfoldable pub is_live : ObserverTable D → ℕ → String → Bool
  is_live t id s = is_among id t.observer_handles && observes (find id t.runtimes) s

  -- Each live observer stands once at its stream and nowhere else, and nothing else stands there;
  -- the next number is no handle yet.
  unfoldable pub IsTable : ObserverTable D → Type 0
  IsTable t =
      ((id : ℕ) (s : String) → count id (ids_of (find s t.observers)) ≡ as_number (is_live t id s))
      × ((id : ℕ) → t.next_observer_id ≤ id → is_among id t.observer_handles ≡ false)

  pub add_observer-IsTable :
      (t : ObserverTable D) (stream : String) (options : ObserverOptions)
      → IsTable t
      → IsTable (add_observer t stream options).0
  unfolding IsTable add_observer is_live new_observer count any
  add_observer-IsTable t stream options (h, fresh) = (
    (λ id s. ground (
      arith,
      find-assign stream s (ids_of (find stream t.observers) ++ t.next_observer_id ∷ [])
          t.observers,
      is_among-append id t.observer_handles (t.next_observer_id ∷ []),
      find-assign t.next_observer_id id (new_observer stream options) t.runtimes,
      count-append id (ids_of (find stream t.observers)) (t.next_observer_id ∷ []),
      h id s,
      fresh id,
      eq_iff stream s,
    )),
    (λ id le.
        ground (arith, fresh id, is_among-append id t.observer_handles (t.next_observer_id ∷ []))),
  )

  put_stopped-IsTable :
      (t : ObserverTable D) (id : ℕ) (o : ObserverRuntime D) (retired : List ℕ)
      → find id t.runtimes ≡ some o
      → is_among id t.observer_handles ≡ true
      → IsTable t
      → IsTable (record t {
        observer_handles = without id t.observer_handles;
        observers = assign o.stream (without id (ids_of (find o.stream t.observers))) t.observers;
        runtimes = assign id (stop_observer o) t.runtimes;
        retired_observers = retired;
      })
  unfolding IsTable is_live stop_observer
  put_stopped-IsTable t id o retired f among (h, fresh) = (
    (λ k s. ground (
      arith,
      find-assign o.stream s (without id (ids_of (find o.stream t.observers))) t.observers,
      is_among-without id k t.observer_handles,
      find-assign id k (stop_observer o) t.runtimes,
      count-without id k (ids_of (find o.stream t.observers)),
      h k s,
      eq_iff o.stream s,
    )),
    (λ k le. ground (arith, fresh k, is_among-without id k t.observer_handles)),
  )

  pub cancel_observer-IsTable :
      (t : ObserverTable D) (id : ℕ) (from_callback : Bool)
      → IsTable t
      → IsTable (cancel_observer t id from_callback).0
  unfolding cancel_observer
  cancel_observer-IsTable t id from_callback h =
      elim (Bool-cases (is_among id t.observer_handles)) [
        | inl among ↦ elim (Option-cases (find id t.runtimes)) [
          | inl f ↦ rw among (rw f h)
          | inr (o, f) ↦ rw among (rw f (put_stopped-IsTable t id o _ f among h))
        ]
        | inr absent ↦ rw absent h
      ]

  pub shutdown_observers-IsTable : (t : ObserverTable D) → IsTable (shutdown_observers t)
  unfolding IsTable shutdown_observers is_live find count any
  shutdown_observers-IsTable t = ((λ id s. refl), (λ id le. refl))

  -- A step of a worker keeps the stream of its observer.
  pub put_observer-IsTable :
      (t : ObserverTable D) (id : ℕ) (o o' : ObserverRuntime D)
      → find id t.runtimes ≡ some o
      → o'.stream ≡ o.stream
      → IsTable t
      → IsTable (put_observer id o' t)
  unfolding IsTable is_live
  put_observer-IsTable t id o o' f same (h, fresh) =
      ((λ k s. ground (arith, f, same, find-assign id k o' t.runtimes, h k s)), fresh)

  enqueue_observer_stream :
      (o : ObserverRuntime D) (p : Packet D) → (enqueue_observer o p).0.stream ≡ o.stream
  unfolding enqueue_observer
  enqueue_observer_stream o p = ground arith

  show_to-IsTable :
      (p : Packet D) (e : Emitter D) (id : ℕ)
      → IsTable e.table
      → IsTable (show_to p e id (find id e.table.runtimes)).table
  show_to-IsTable p e id h = elim (Option-cases (find id e.table.runtimes)) [
    | inl f ↦ rw f h
    | inr (o, f) ↦ rw f (
        if_lem (λ (e' : Emitter D). IsTable e'.table) (shows p o)
          (λ x.
            put_observer-IsTable e.table id o (enqueue_observer o p).0 f
              (enqueue_observer_stream o p) h)
          (λ x. h))
  ]

  pub show_each-IsTable :
      (p : Packet D) (e : Emitter D) (ids : List ℕ)
      → IsTable e.table
      → IsTable (show_each p e ids).table
  unfolding show_each
  show_each-IsTable p e [] h = h
  show_each-IsTable p e (id ∷ ids) h =
      show_each-IsTable p (show_to p e id (find id e.table.runtimes)) ids (show_to-IsTable p e id h)

pub no_observers-IsTable : (D : Type 0) → IsTable (no_observers {D = D})
unfolding IsTable no_observers is_live find count any
no_observers-IsTable D = ((λ id s. refl), (λ id le. refl))
