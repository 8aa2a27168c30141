-- ===== src/Runner/Observers/Worker.antt =====
-- The packets of one observer, and the worker that takes them: as a bounded queue.
use rk_avp.Prelude.{
  ℕ, ◌+◌, ◌<◌, ◌≡◌, refl, ap, sym, subst, ◌∙◌, false, List, [], ◌∷◌, ◌++◌, none, some, length,
  length-append, length-rest, rest, if◌then◌else◌, arith,
}
use rk_avp.Packet.{Packet}
use rk_avp.Queue.{BoundedQueue, push, wait_pop, close}
use rk_avp.Queue.Order.{Call, pushes, waits_for, closes, call, run}
use rk_avp.Runner.Observers.{
  ObserverRuntime, ObserverOptions, is_blocking, enqueue_observer, take_packet, finish_packet,
  stop_observer,
}

-- What happens to an observer: a packet comes, its worker looks for one or ends a callback, or it
-- is stopped.
pub data Event (D : Type 0) : Type 0 where
  arrives : Packet D → Event D
  takes finishes stops : Event D

-- What `ObserveOutput` accepts.
abbrev pub IsAccepted : ObserverOptions → Type 0
IsAccepted options = (0 < options.queue_capacity) × (is_blocking options.queue_policy ≡ false)

module _ {D : Type 0} where
  -- The observer after an event, and the packets that its worker took.
  unfoldable pub observe : ObserverRuntime D → Event D → ObserverRuntime D × List (Packet D)
  observe o (arrives p) = ((enqueue_observer o p).0, [])
  observe o takes = elim (take_packet o) [
    | none ↦ (o, [])
    | some r ↦ (r.0, elim (r.1) [ none ↦ [] | some p ↦ p ∷ [] ])
  ]
  observe o finishes = (finish_packet o, [])
  observe o stops = (stop_observer o, [])

  unfoldable pub observe_all :
      ObserverRuntime D → List (Event D) → ObserverRuntime D × List (Packet D)
  observe_all o [] = (o, [])
  observe_all o (e ∷ es) =
      let (o', taken) = observe o e in let (o'', later) = observe_all o' es in (o'', taken ++ later)

  -- The bounded queue that an observer is.
  abbrev pub as_queue : ObserverRuntime D → BoundedQueue (Packet D)
  as_queue o = record {
    capacity = o.options.queue_capacity;
    policy = o.options.queue_policy;
    queue = o.queue;
    closed = o.stopped;
  }

  abbrev pub calls_of : List (Event D) → List (Call (Packet D))
  calls_of [] = []
  calls_of (arrives p ∷ es) = pushes p ∷ calls_of es
  calls_of (takes ∷ es) = waits_for ∷ calls_of es
  calls_of (finishes ∷ es) = calls_of es
  calls_of (stops ∷ es) = closes ∷ calls_of es

  enqueue-push :
      (o : ObserverRuntime D) (p : Packet D)
      → IsAccepted o.options
      → as_queue (enqueue_observer o p).0 ≡ (call (as_queue o) (pushes p)).after
  unfolding enqueue_observer call push
  enqueue-push o p (c, b) = ground arith

  -- What `WaitPop` gives out over the same calls on a bounded queue.
  unfoldable pub given_out : BoundedQueue (Packet D) → List (Event D) → List (Packet D)
  given_out q [] = []
  given_out q (arrives p ∷ es) = given_out (call q (pushes p)).after es
  given_out q (takes ∷ es) = (call q waits_for).removed ++ given_out (call q waits_for).after es
  given_out q (finishes ∷ es) = given_out q es
  given_out q (stops ∷ es) = given_out (call q closes).after es

  take-wait_pop :
      (o : ObserverRuntime D)
      → (as_queue (observe o takes).0 ≡ (call (as_queue o) waits_for).after)
        × ((observe o takes).1 ≡ (call (as_queue o) waits_for).removed)
  unfolding observe take_packet call wait_pop
  take-wait_pop o = (ground arith, ground arith)

  arrives-call :
      (o : ObserverRuntime D) (p : Packet D)
      → IsAccepted o.options
      → as_queue (observe o (arrives p)).0 ≡ (call (as_queue o) (pushes p)).after
  unfolding observe
  arrives-call o p h = enqueue-push o p h

  observe-none : (o : ObserverRuntime D) (p : Packet D) → (observe o (arrives p)).1 ≡ []
  unfolding observe
  observe-none o p = refl

  finishes-as_queue :
      (o : ObserverRuntime D)
      → (as_queue (observe o finishes).0 ≡ as_queue o) × ((observe o finishes).1 ≡ [])
  unfolding observe finish_packet
  finishes-as_queue o = (refl, refl)

  stops-call :
      (o : ObserverRuntime D)
      → (as_queue (observe o stops).0 ≡ (call (as_queue o) closes).after)
        × ((observe o stops).1 ≡ [])
  unfolding observe stop_observer call close
  stops-call o = (refl, refl)

  observe-options : (o : ObserverRuntime D) (e : Event D) → (observe o e).0.options ≡ o.options
  unfolding observe enqueue_observer take_packet finish_packet stop_observer
  observe-options o (arrives p) = ground arith
  observe-options o takes = ground arith
  observe-options o finishes = refl
  observe-options o stops = refl

  IsAccepted-observe :
      (o : ObserverRuntime D) (e : Event D)
      → IsAccepted o.options
      → IsAccepted (observe o e).0.options
  IsAccepted-observe o e h = subst IsAccepted (sym (observe-options o e)) h

  -- An observer refines a bounded queue: whatever arrives, is taken or stops it, and in whatever
  -- order, an observer with options that `ObserveOutput` accepts holds what a bounded queue of its
  -- capacity and policy holds after the same `Push`, `WaitPop` and `Close`, and its worker takes
  -- what these `WaitPop` give out.
  pub observe_all_refines :
      (o : ObserverRuntime D) (es : List (Event D))
      → IsAccepted o.options
      → (as_queue (observe_all o es).0 ≡ (run (as_queue o) (calls_of es)).after)
        × ((observe_all o es).1 ≡ given_out (as_queue o) es)
  unfolding observe_all run given_out
  observe_all_refines o [] h = (refl, refl)
  observe_all_refines o (arrives p ∷ es) h =
      let (held, taken) =
        observe_all_refines (observe o (arrives p)).0 es (IsAccepted-observe o (arrives p) h) in
      let same = arrives-call o p h in
      (
        held ∙ ap (λ q. (run q (calls_of es)).after) same,
        ap (λ xs. xs ++ (observe_all (observe o (arrives p)).0 es).1) (observe-none o p)
            ∙ taken
            ∙ ap (λ q. given_out q es) same,
      )
  observe_all_refines o (takes ∷ es) h =
      let (held, taken) =
        observe_all_refines (observe o takes).0 es (IsAccepted-observe o takes h) in
      let (same, out) = take-wait_pop o in
      (
        held ∙ ap (λ q. (run q (calls_of es)).after) same,
        ap (λ xs. xs ++ (observe_all (observe o takes).0 es).1) out
            ∙ ap (λ xs. (call (as_queue o) waits_for).removed ++ xs)
                (taken ∙ ap (λ q. given_out q es) same),
      )
  observe_all_refines o (finishes ∷ es) h =
      let (held, taken) =
        observe_all_refines (observe o finishes).0 es (IsAccepted-observe o finishes h) in
      let (same, out) = finishes-as_queue o in
      (
        held ∙ ap (λ q. (run q (calls_of es)).after) same,
        ap (λ xs. xs ++ (observe_all (observe o finishes).0 es).1) out
            ∙ taken
            ∙ ap (λ q. given_out q es) same,
      )
  observe_all_refines o (stops ∷ es) h =
      let (held, taken) =
        observe_all_refines (observe o stops).0 es (IsAccepted-observe o stops h) in
      let (same, out) = stops-call o in
      (
        held ∙ ap (λ q. (run q (calls_of es)).after) same,
        ap (λ xs. xs ++ (observe_all (observe o stops).0 es).1) out
            ∙ taken
            ∙ ap (λ q. given_out q es) same,
      )

  -- How many packets come before the observer stops.
  abbrev pub heard : ObserverRuntime D → List (Event D) → ℕ
  heard o [] = 0
  heard o (arrives p ∷ es) = (if o.stopped then 0 else 1) + heard (observe o (arrives p)).0 es
  heard o (takes ∷ es) = heard (observe o takes).0 es
  heard o (finishes ∷ es) = heard (observe o finishes).0 es
  heard o (stops ∷ es) = heard (observe o stops).0 es

  observe-counts :
      (o : ObserverRuntime D) (e : Event D)
      → 0 < o.options.queue_capacity
      → length (observe o e).1 + length (observe o e).0.queue + (observe o e).0.dropped
        ≡ length o.queue + o.dropped + heard o (e ∷ [])
  unfolding observe enqueue_observer take_packet finish_packet stop_observer
  observe-counts o (arrives p) h = ground (
    arith,
    length-append (rest o.queue) (p ∷ []),
    length-append o.queue (p ∷ []),
    length-rest o.queue,
  )
  observe-counts o takes h = ground arith
  observe-counts o finishes h = omega arith
  observe-counts o stops h = omega arith

  heard-cons :
      (o : ObserverRuntime D) (e : Event D) (es : List (Event D))
      → heard o (e ∷ es) ≡ heard o (e ∷ []) + heard (observe o e).0 es
  heard-cons o (arrives p) es = omega arith
  heard-cons o takes es = omega arith
  heard-cons o finishes es = omega arith
  heard-cons o stops es = omega arith

  -- Every packet that comes before an observer stops is taken, waits, or is counted as dropped.
  observe_all_counts :
      (o : ObserverRuntime D) (es : List (Event D))
      → 0 < o.options.queue_capacity
      → let (o', taken) = observe_all o es in
        length taken + length o'.queue + o'.dropped ≡ length o.queue + o.dropped + heard o es
  unfolding observe_all
  observe_all_counts o [] h = omega arith
  observe_all_counts o (e ∷ es) h =
      let (o', taken) = observe o e in
      let later =
        observe_all_counts o' es
          (subst (λ k. 0 < k.queue_capacity) (sym (observe-options o e)) h) in
      omega
        (arith, observe-counts o e h, heard-cons o e es, length-append taken (observe_all o' es).1)
