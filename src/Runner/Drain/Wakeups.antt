-- ===== src/Runner/Drain/Wakeups.antt =====
-- Interleavings of the pushes and drains of one queue: exclusion, order and lost wake-ups.
use mathlib.Core.List.{append-nil, append_assoc}
use rk_avp.Prelude.{
  ◌+◌, ◌≤◌, ◌<◌, ◌≡◌, refl, Bool, true, false, ◌⊎◌, List, [], ◌∷◌, ◌++◌, Option, none, some,
  if◌then◌else◌, is_empty, arith, rest, Option-cases, inl, inr, subst, ap, ◌∙◌, All, take,
}
use rk_avp.Queue.{BoundedQueue, block, push, push_control, try_pop, close}
use rk_avp.Runner.Drain.{
  Lane, Step, pushes, pushes_control, exchanges, posts, fails_to_post, pops, resets, checks,
  cancels, step, steps, idle_lane,
}

module _ {ℓ} {A : Type ℓ} where
  -- One thread holds the flag `scheduled`, and a packet that waits will be seen.
  pub record Live (l : Lane A) : Type ℓ where
    pub holder : l.posting + l.posted + l.delivering ≡ (if l.scheduled then 1 else 0)
    pub seen :
        (is_empty l.queue.queue ≡ true)
        ⊎ (l.cancelled ≡ true)
        ⊎ (l.scheduled ≡ true)
        ⊎ (0 < l.scheduling + l.checking)

  step-Live : (l k : Lane A) (s : Step A) → Live l → step l s ≡ some k → Live k
  unfolding step push push_control try_pop close
  step-Live l k (pushes v) h e =
      let a = h.holder in let b = h.seen in record { holder = ground arith; seen = ground arith }
  step-Live l k (pushes_control v) h e =
      let a = h.holder in let b = h.seen in record { holder = ground arith; seen = ground arith }
  step-Live l k exchanges h e =
      let a = h.holder in let b = h.seen in record { holder = ground arith; seen = ground arith }
  step-Live l k posts h e =
      let a = h.holder in let b = h.seen in record { holder = ground arith; seen = ground arith }
  step-Live l k fails_to_post h e =
      let a = h.holder in let b = h.seen in record { holder = ground arith; seen = ground arith }
  step-Live l k pops h e =
      let a = h.holder in let b = h.seen in record { holder = ground arith; seen = ground arith }
  step-Live l k resets h e =
      let a = h.holder in let b = h.seen in record { holder = ground arith; seen = ground arith }
  step-Live l k checks h e =
      let a = h.holder in let b = h.seen in record { holder = ground arith; seen = ground arith }
  step-Live l k cancels h e =
      let a = h.holder in let b = h.seen in record { holder = ground arith; seen = ground arith }

  steps-Live : (l k : Lane A) (ss : List (Step A)) → Live l → steps l ss ≡ some k → Live k
  unfolding steps
  steps-Live l k [] h e = let same : l ≡ k = ground arith in subst Live same h
  steps-Live l k (s ∷ ss) h e = elim (Option-cases (step l s)) [
    | inl stuck ↦ absurd (let e' = rw stuck at e in cc)
    | inr (m, e') ↦ steps-Live m k ss (step-Live l m s h e') (rw e' at e)
  ]

  idle_lane-Live : (q : BoundedQueue A) → q.queue ≡ [] → Live (idle_lane q)
  idle_lane-Live q h = record { holder = refl; seen = ground arith }

  -- Whatever the interleaving, at most one task or thread delivers from a queue at a time.
  pub steps_exclusive :
      (q : BoundedQueue A) (ss : List (Step A)) (l : Lane A)
      → q.queue ≡ []
      → steps (idle_lane q) ss ≡ some l
      → l.posted + l.delivering ≤ 1
  steps_exclusive q ss l h e =
      let live = steps-Live (idle_lane q) l ss (idle_lane-Live q h) e in
      let a = live.holder in ground arith

  -- No thread is at any line of `ScheduleEdge` or `DrainEdge` from which it goes on.
  pub record Quiet (l : Lane A) : Type ℓ where
    pub no_exchange : step l exchanges ≡ none
    pub no_post : step l posts ≡ none
    pub no_pop : step l pops ≡ none
    pub no_reset : step l resets ≡ none
    pub no_check : step l checks ≡ none

  -- No wake-up is lost: whatever the interleaving, when no thread can go on, the queue is empty
  -- or the graph is cancelled.
  pub steps_drained :
      (q : BoundedQueue A) (ss : List (Step A)) (l : Lane A)
      → q.queue ≡ []
      → steps (idle_lane q) ss ≡ some l
      → Quiet l
      → (l.queue.queue ≡ []) ⊎ (l.cancelled ≡ true)
  unfolding step
  steps_drained q ss l h e quiet =
      let live = steps-Live (idle_lane q) l ss (idle_lane-Live q h) e in
      ground (
        arith, live.holder, live.seen, quiet.no_exchange, quiet.no_post, quiet.no_pop,
        quiet.no_reset, quiet.no_check,
      )

  abbrev is_data : Step A → Bool
  is_data (pushes_control v) = false
  is_data _ = true

  -- The packets whose `Push` returned true.
  abbrev accepted_by : Lane A → Step A → List A
  accepted_by l (pushes v) = elim (push l.queue v) [
    | none ↦ []
    | some (q, b, dropped) ↦ if b then v ∷ [] else []
  ]
  accepted_by l _ = []

  abbrev accepted_next : Lane A → Step A → Option (Lane A) → (Lane A → List A) → List A
  accepted_next l s none next = []
  accepted_next l s (some k) next = accepted_by l s ++ next k

  pub accepted_in : Lane A → List (Step A) → List A
  accepted_in l [] = []
  accepted_in l (s ∷ ss) = accepted_next l s (step l s) (λ k. accepted_in k ss)

  step_block :
      (l k : Lane A) (s : Step A)
      → l.queue.policy ≡ block
      → is_data s ≡ true
      → step l s ≡ some k
      → (k.delivered ++ k.queue.queue ≡ (l.delivered ++ l.queue.queue) ++ accepted_by l s)
        × (k.queue.policy ≡ block)
  unfolding step push try_pop close
  step_block l k (pushes v) h d e = ground (
    arith,
    append_assoc l.delivered l.queue.queue (v ∷ []),
    append-nil (l.delivered ++ l.queue.queue),
  )
  step_block l k (pushes_control v) h d e = absurd (cc)
  step_block l k exchanges h d e = ground (arith, append-nil (l.delivered ++ l.queue.queue))
  step_block l k posts h d e = ground (arith, append-nil (l.delivered ++ l.queue.queue))
  step_block l k fails_to_post h d e = ground (arith, append-nil (l.delivered ++ l.queue.queue))
  step_block l k pops h d e = ground (
    arith,
    append_assoc l.delivered (take 1 l.queue.queue) (rest l.queue.queue),
    append-nil (l.delivered ++ l.queue.queue),
  )
  step_block l k resets h d e = ground (arith, append-nil (l.delivered ++ l.queue.queue))
  step_block l k checks h d e = ground (arith, append-nil (l.delivered ++ l.queue.queue))
  step_block l k cancels h d e = ground (arith, append-nil (l.delivered ++ l.queue.queue))

  -- In a lane whose queue blocks when it is full, and to which no control packet is pushed, since
  -- `PushControl` evicts the front of a full queue, packets are delivered in the order of their
  -- pushes, none twice and none lost: what was delivered, then what waits, is what was accepted.
  pub steps_in_order :
      (l k : Lane A) (ss : List (Step A))
      → l.queue.policy ≡ block
      → All (λ s. is_data s ≡ true) ss
      → steps l ss ≡ some k
      → k.delivered ++ k.queue.queue ≡ (l.delivered ++ l.queue.queue) ++ accepted_in l ss
  unfolding steps accepted_in
  steps_in_order l k [] h d e = ground (arith, append-nil (l.delivered ++ l.queue.queue))
  steps_in_order l k (s ∷ ss) h d e = elim (Option-cases (step l s)) [
    | inl stuck ↦ absurd (let e' = rw stuck at e in cc)
    | inr (m, e') ↦
        let (here, h') = step_block l m s h d.0 e' in
        let later = steps_in_order m k ss h' d.1 (rw e' at e) in
        rw e' (
          later
          ∙ ap (λ xs. xs ++ accepted_in m ss) here
          ∙ append_assoc (l.delivered ++ l.queue.queue) (accepted_by l s) (accepted_in m ss))
  ]
