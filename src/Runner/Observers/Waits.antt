-- ===== src/Runner/Observers/Waits.antt =====
-- Who waits on an observer: `WaitForObservedOutput`, and the join of a worker that was stopped.
use rk_avp.Prelude.{
  ℕ, zero, suc, ◌+◌, ◌<◌, ◌≤◌, ◌≡◌, ◌≢◌, ap, Bool, true, false, List, [], ◌∷◌, Option, none, some,
  String, length, if◌then◌else◌, arith,
}
use rk_avp.Status.{Status, is_ok}
use rk_avp.Packet.{Packet}
use rk_avp.Runner.Observers.{
  ObserverRuntime, ObserverOptions, new_observer, enqueue_observer, take_packet, finish_packet,
  stop_observer, wait_for_output,
}
use rk_avp.Runner.Observers.Worker.{Event, arrives, takes, finishes, stops, observe}

-- An observer lives on, or somebody waits for its output; the flag is a timeout.
pub data Moment (D : Type 0) : Type 0 where
  lives : Event D → Moment D
  waits : Bool → Moment D

module _ {D : Type 0} where
  abbrev answered_ok : Option (ObserverRuntime D × Status) → ℕ
  answered_ok none = 0
  answered_ok (some (o, s)) = if is_ok s then 1 else 0

  abbrev after_wait : ObserverRuntime D → Option (ObserverRuntime D × Status) → ObserverRuntime D
  after_wait o none = o
  after_wait o (some (o', s)) = o'

  -- The observer after some moments, and how many waits were answered ok.
  unfoldable pub wait_all : ObserverRuntime D → List (Moment D) → ObserverRuntime D × ℕ
  wait_all o [] = (o, 0)
  wait_all o (lives e ∷ ms) = wait_all (observe o e).0 ms
  wait_all o (waits timed_out ∷ ms) =
      let (o', n) = wait_all (after_wait o (wait_for_output o timed_out)) ms in
      (o', answered_ok (wait_for_output o timed_out) + n)

  event-delivered :
      (o : ObserverRuntime D) (e : Event D)
      → (o.delivered ≤ (observe o e).0.delivered) × ((observe o e).0.waited ≡ o.waited)
  unfolding observe enqueue_observer take_packet finish_packet stop_observer
  event-delivered o (arrives p) = ground arith
  event-delivered o takes = ground arith
  event-delivered o finishes = omega arith
  event-delivered o stops = omega arith

  wait-waited :
      (o : ObserverRuntime D) (timed_out : Bool)
      → o.waited ≤ o.delivered
      → let o' = after_wait o (wait_for_output o timed_out) in
        (o'.delivered ≡ o.delivered)
        × (o'.waited ≤ o'.delivered)
        × (answered_ok (wait_for_output o timed_out) + o.waited ≤ o'.waited)
  unfolding wait_for_output
  wait-waited o timed_out h = ground arith

  wait_all_lem :
      (o : ObserverRuntime D) (ms : List (Moment D))
      → o.waited ≤ o.delivered
      → let (o', n) = wait_all o ms in (o'.waited ≤ o'.delivered) × (n + o.waited ≤ o'.waited)
  unfolding wait_all
  wait_all_lem o [] h = omega arith
  wait_all_lem o (lives e ∷ ms) h = omega (
    arith,
    event-delivered o e,
    wait_all_lem (observe o e).0 ms (omega (arith, event-delivered o e)),
  )
  wait_all_lem o (waits timed_out ∷ ms) h = omega (
    arith,
    wait-waited o timed_out h,
    wait_all_lem (after_wait o (wait_for_output o timed_out)) ms
        (omega (arith, wait-waited o timed_out h)),
  )

  -- Over the life of a new observer no more waits are answered ok than packets were delivered.
  waits_bounded :
      (stream : String) (options : ObserverOptions) (ms : List (Moment D))
      → let (o, n) = wait_all (new_observer stream options) ms in n ≤ o.delivered
  unfolding new_observer
  waits_bounded stream options ms =
      omega (arith, wait_all_lem (new_observer stream options) ms (omega arith))

  -- The worker's loop; the flag says that it returned, which ends the join.
  unfoldable pub run_worker : ℕ → ObserverRuntime D → ObserverRuntime D × List (Packet D) × Bool
  run_worker zero o = (o, [], false)
  run_worker (suc fuel) o = elim (take_packet o) [
    | none ↦ (o, [], false)
    | some r ↦ elim (r.1) [
      | none ↦ (r.0, [], true)
      | some p ↦
          let (o', later, ended) = run_worker fuel (finish_packet (r.0)) in (o', p ∷ later, ended)
    ]
  ]

  -- What the worker of a stopped observer with a given queue comes to.
  abbrev Returns : ℕ → ObserverRuntime D → List (Packet D) → Type 0
  Returns fuel o ps =
      let (o', taken, ended) = run_worker fuel (record o { queue = ps }) in
      (ended ≡ true) × (taken ≡ ps) × (o'.delivered ≡ length ps + o.delivered)

  worker-Returns :
      (fuel : ℕ) (o : ObserverRuntime D) (ps : List (Packet D))
      → o.stopped ≡ true
      → length ps < fuel
      → Returns fuel o ps
  unfolding run_worker take_packet finish_packet
  worker-Returns zero o ps s h = absurd (omega arith)
  worker-Returns (suc fuel) o [] s h = ground arith
  worker-Returns (suc fuel) o (p ∷ ps) s h =
      let (e, t, d) = worker-Returns fuel (finish_packet o) ps s (omega arith) in
      (e, ap (λ l. p ∷ l) t, omega (arith, d))

  -- The worker of a stopped observer takes what still waits, in order, delivers it, and returns, so
  -- that `CancelObserver` and `ShutdownObservers` do not wait for it for ever; nor does a wait for
  -- the observer's output sleep.
  pub stopped_worker_returns :
      (fuel : ℕ) (o : ObserverRuntime D)
      → o.stopped ≡ true
      → length o.queue < fuel
      → let (o', taken, ended) = run_worker fuel o in
        (ended ≡ true)
        × (taken ≡ o.queue)
        × (o'.delivered ≡ length o.queue + o.delivered)
        × (wait_for_output o false ≢ none)
  unfolding wait_for_output
  stopped_worker_returns fuel o s h =
      let (e, t, d) = worker-Returns fuel o o.queue s h in (e, t, d, ground arith)
