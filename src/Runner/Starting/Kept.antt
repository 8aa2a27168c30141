-- ===== src/Runner/Starting/Kept.antt =====
-- What putting a packet on an edge leaves alone in a runner, of src/core/graph_runner.cpp.
use rk_avp.Prelude.{
  ℕ, suc, ◌≡◌, Bool, true, false, ◌&&◌, not, List, [], ◌∷◌, Option, none, some, String, string_keys,
  ℤ, get_elem?, if_lem, Option-cases, inl, inr, if◌then◌else◌,
}
use rk_avp.Status.{Status, is_ok, ◌+s◌}
use rk_avp.Packet.{Packet}
use rk_avp.ConfigValue.{ConfigValue}
use rk_avp.Queue.{BoundedQueue}
use rk_avp.Graph.{EdgeConfig}
use rk_avp.Scheduler.{Scheduler}
use rk_avp.Runner.Stream.{arrive}
use rk_avp.Runner.State.{
  GraphRunner, EdgeRuntime, Task, set_error, close_queues, put_edge, post_to, scheduled_edge,
  schedule_edge, schedule_edge_at, executor_for, drain_edge,
}
use rk_avp.Runner.Edges.{
  Called, enqueue_edge, enqueue_at, offer_edge, offered, push_packet, count_dropped, edge_metric,
  edge_stream, arrival_by, is_drop_newest,
}
use rk_avp.Runner.Starting.{enqueue_initial, packet_from_config}

module _ {D : Type 0} where
  -- The second runner has the nodes of the first, and runs when the first does.
  abbrev pub IsKept : GraphRunner D → GraphRunner D → Type 0
  IsKept r s = (s.nodes ≡ r.nodes) × (s.running ≡ r.running)

  set_error-IsKept : (e : Status) (r s : GraphRunner D) → IsKept r s → IsKept r (set_error e s)
  unfolding set_error close_queues
  set_error-IsKept e r s h = if_lem (IsKept r) (not (is_ok s.last_error)) (λ x. h) (λ x. h)

  post_to-IsKept :
      (r s : GraphRunner D) (o : Option (String × Scheduler Task)) (task : Task) (now : ℤ)
      (missing : String)
      → IsKept r s
      → IsKept r (post_to s o task now missing).0
  post_to-IsKept r s none task now missing h = h
  post_to-IsKept r s (some (name, executor)) task now missing h = h

  scheduled_edge-IsKept :
      (r : GraphRunner D) (i : ℕ) (e : EdgeRuntime D) (x : GraphRunner D × Status)
      → IsKept r x.0
      → IsKept r (scheduled_edge i e x)
  scheduled_edge-IsKept r i e (s, status) h =
      if_lem (IsKept r) (is_ok status) (λ x. h)
        (λ x. set_error-IsKept status r (put_edge i (record e { scheduled = false }) s) h)

  schedule_edge_at-IsKept :
      (r s : GraphRunner D) (i : ℕ) (o : Option (EdgeRuntime D)) (now : ℤ)
      → IsKept r s
      → IsKept r (schedule_edge_at s i o now)
  schedule_edge_at-IsKept r s i none now h = h
  schedule_edge_at-IsKept r s i (some e) now h =
      if_lem (IsKept r) e.scheduled (λ x. h)
        (λ x.
          let s' = put_edge i (record e { scheduled = true }) s in
          let o = executor_for s e.config.to_node in
          scheduled_edge-IsKept r i e
            (post_to s' o (drain_edge i) now "destination executor not found")
            (post_to-IsKept r s' o (drain_edge i) now "destination executor not found" h))

  count_dropped-IsKept :
      (r s : GraphRunner D) (dropped : Bool) (name : String)
      → IsKept r s
      → IsKept r (count_dropped dropped name s)
  count_dropped-IsKept r s dropped name h = if_lem (IsKept r) dropped (λ x. h) (λ x. h)

  offered-IsKept :
      (r s : GraphRunner D) (i : ℕ) (e : EdgeRuntime D)
      (o : Option (BoundedQueue (Packet D) × Bool × Bool)) (now : ℤ)
      → IsKept r s
      → IsKept r (offered s i e o now).runner
  unfolding schedule_edge
  offered-IsKept r s i e none now h = h
  offered-IsKept r s i e (some (q, pushed, dropped)) now h =
      if_lem Goes pushed (λ x. schedule_edge_at-IsKept r s' i (get_elem? s'.edges i) now kept)
        (λ x. if_lem Goes (dropped && is_drop_newest e.config.queue.policy) (λ y. kept) (λ y. kept))
    where
      Goes : Called D → Type 0
      Goes c = IsKept r c.runner

      e' : EdgeRuntime D
      e' = record e { queue = q; dropped = if dropped then suc e.dropped else e.dropped }

      s' : GraphRunner D
      s' = count_dropped dropped (edge_metric e.config +s ".dropped") (put_edge i e' s)

      kept : IsKept r s'
      kept = count_dropped-IsKept r (put_edge i e' s) dropped (edge_metric e.config +s ".dropped") h

  enqueue_at-IsKept :
      (r s : GraphRunner D) (i : ℕ) (o : Option (EdgeRuntime D)) (p : Packet D) (now : ℤ)
      → IsKept r s
      → IsKept r (enqueue_at s i o p now).runner
  unfolding offer_edge
  enqueue_at-IsKept r s i none p now h = h
  enqueue_at-IsKept r s i (some e) p now h =
      let (stream, status) =
        arrive (edge_stream e.config) e.stream (arrival_by p.event p.timestamp) in
      let e' = record e { stream = stream } in
      if_lem (λ (c : Called D). IsKept r c.runner) (is_ok status)
        (λ x. offered-IsKept r (put_edge i e' s) i e' (push_packet e'.queue p) now h) (λ x. h)

  enqueue_edge-IsKept :
      (r s : GraphRunner D) (i : ℕ) (p : Packet D) (now : ℤ)
      → IsKept r s
      → IsKept r (enqueue_edge s i p now).runner
  unfolding enqueue_edge
  enqueue_edge-IsKept r s i p now h = enqueue_at-IsKept r s i (get_elem? s.edges i) p now h

  pub enqueue_initial-IsKept :
      (payload : ConfigValue → D) (r s : GraphRunner D) (cs : List EdgeConfig) (i : ℕ) (now : ℤ)
      → IsKept r s
      → IsKept r (enqueue_initial payload cs i s now).runner
  unfolding enqueue_initial
  enqueue_initial-IsKept payload r s [] i now h = h
  enqueue_initial-IsKept payload r s (c ∷ cs) i now h =
      let p = packet_from_config payload c.initial_packet in
      let sent = enqueue_edge s i p now in
      let kept = enqueue_edge-IsKept r s i p now h in
      if_lem (λ (c : Called D). IsKept r c.runner) c.back_edge
        (λ x. elim (Option-cases sent.answer) [
          | inl a ↦ rw a kept
          | inr (status, a) ↦
              rw a (enqueue_initial-IsKept payload r sent.runner cs (suc i) now kept)
        ])
        (λ x. enqueue_initial-IsKept payload r s cs (suc i) now h)
