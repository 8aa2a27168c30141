-- ===== src/Builtins/Credits.antt =====
-- What a flow limiter lets through over any sequence of packets and signals.
use rk_avp.Prelude.{
  ℕ, ◌+◌, ◌≤◌, ◌<◌, ◌≡◌, ◌⊎◌, List, [], ◌∷◌, none, some, length, length-append, length-rest,
  if◌then◌else◌, rest, arith,
}
use rk_avp.Packet.{Packet, is_no_event}
use rk_avp.Builtins.{Answer, emits, returns}
use rk_avp.Builtins.FlowLimiter.{FlowLimiter, on_process, finished, enter}

pub data Signal (D : Type 0) : Type 0 where
  finish arrive : Packet D → Signal D

module _ {D : Type 0} where
  unfoldable pub signal : FlowLimiter D → Signal D → FlowLimiter D × Answer D
  signal f (finish p) = on_process f (some p) none
  signal f (arrive p) = on_process f none (some p)

  -- The data packets among them; control events pass by.
  abbrev pub data_out : Signal D → Answer D → ℕ
  data_out (finish p) (emits port q) = 1
  data_out (arrive p) (emits port q) = if is_no_event p.event then 1 else 0
  data_out s (returns status) = 0

  abbrev pub data_in : Signal D → ℕ
  data_in (finish p) = 0
  data_in (arrive p) = if is_no_event p.event then 1 else 0

  abbrev pub finishes : Signal D → ℕ
  finishes (finish p) = 1
  finishes (arrive p) = 0

  abbrev pub total : (Signal D → ℕ) → List (Signal D) → ℕ
  total count [] = 0
  total count (s ∷ ss) = count s + total count ss

  -- The node at the end, and the number of data packets that it let through.
  unfoldable pub signal_all : FlowLimiter D → List (Signal D) → FlowLimiter D × ℕ
  signal_all f [] = (f, 0)
  signal_all f (s ∷ ss) =
      let (f', answer) = signal f s in
      let (f'', n) = signal_all f' ss in (f'', data_out s answer + n)

  -- Within the limits, and no packet waits while there is a place.
  pub record IsBalanced (f : FlowLimiter D) : Type 0 where
    pub limited : f.in_flight ≤ f.max_in_flight
    pub busy : (f.pending ≡ []) ⊎ (f.in_flight ≡ f.max_in_flight)
    pub bounded : length f.pending ≤ f.queue_capacity

  signal-IsBalanced :
      (f : FlowLimiter D) (s : Signal D)
      → 0 < f.max_in_flight
      → IsBalanced f
      → IsBalanced (signal f s).0
  unfolding signal on_process finished enter
  signal-IsBalanced f (finish p) m h = record {
    limited = ground (arith, h.limited, h.busy, h.bounded, m);
    busy = ground (arith, h.limited, h.busy, h.bounded, m);
    bounded = ground (arith, h.limited, h.busy, h.bounded, m);
  }
  signal-IsBalanced f (arrive p) m h = record {
    limited = ground (arith, h.limited, h.busy, h.bounded, m);
    busy = ground (arith, h.limited, h.busy, h.bounded, m);
    bounded = ground (
      arith,
      h.limited,
      h.busy,
      h.bounded,
      m,
      length-append f.pending (p ∷ []),
      length-append (rest f.pending) (p ∷ []),
      length-rest f.pending,
    );
  }

  signal_counts :
      (f : FlowLimiter D) (s : Signal D)
      → let (f', answer) = signal f s in
        (data_out s answer + f.in_flight ≤ f'.in_flight + finishes s)
        × (data_out s answer + length f'.pending + f'.dropped
            ≡ data_in s + length f.pending + f.dropped)
        × (f'.max_in_flight ≡ f.max_in_flight)
  unfolding signal on_process finished enter
  signal_counts f (finish p) = ground arith
  signal_counts f (arrive p) = ground (
    arith,
    length-append f.pending (p ∷ []),
    length-append (rest f.pending) (p ∷ []),
    length-rest f.pending,
  )

  -- A flow limiter stays within its limits, and never lets a packet wait while a place is free.
  pub signal_all-IsBalanced :
      (f : FlowLimiter D) (ss : List (Signal D))
      → 0 < f.max_in_flight
      → IsBalanced f
      → IsBalanced (signal_all f ss).0
  unfolding signal_all
  signal_all-IsBalanced f [] m h = h
  signal_all-IsBalanced f (s ∷ ss) m h =
      signal_all-IsBalanced (signal f s).0 ss (omega (arith, m, signal_counts f s))
        (signal-IsBalanced f s m h)

  run_counts :
      (f : FlowLimiter D) (ss : List (Signal D))
      → let (f', n) = signal_all f ss in
        (n + f.in_flight ≤ f'.in_flight + total finishes ss)
        × (n + length f'.pending + f'.dropped ≡ total data_in ss + length f.pending + f.dropped)
        × (f'.max_in_flight ≡ f.max_in_flight)
  unfolding signal_all
  run_counts f [] = ground arith
  run_counts f (s ∷ ss) = omega (arith, signal_counts f s, run_counts (signal f s).0 ss)

  -- A flow limiter lets through at most `max_in_flight` data packets more than it has had signals,
  -- and each data packet that came is let through, waits, or is counted as dropped.
  signal_all_credits :
      (f : FlowLimiter D) (ss : List (Signal D))
      → 0 < f.max_in_flight
      → IsBalanced f
      → let (f', n) = signal_all f ss in
        (n ≤ f.max_in_flight + total finishes ss)
        × (n + length f'.pending + f'.dropped ≡ total data_in ss + length f.pending + f.dropped)
  signal_all_credits f ss m h =
      let counts = run_counts f ss in
      let (kept, conserved, same) = counts in
      (omega (arith, kept, same, (signal_all-IsBalanced f ss m h).limited), conserved)
