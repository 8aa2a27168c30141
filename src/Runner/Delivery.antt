-- ===== src/Runner/Delivery.antt =====
-- What each operation of a runner leaves of its fail-stop, of src/core/graph_runner.cpp.
use rk_avp.Prelude.{
  ℕ, zero, suc, ◌≡◌, Bool, true, false, ◌&&◌, inl, inr, Option-cases, not, List, [], ◌∷◌, Option,
  none, some, String, string_keys, ℤ, get_elem?, arith, if_lem, is_empty,
}
use rk_avp.Prelude.Maps.{find, assign}
use rk_avp.Prelude.Names.{member, remove}
use rk_avp.Status.{Status, is_ok, ◌+s◌}
use rk_avp.Timestamp.{Timestamp, is_unset}
use rk_avp.Timestamp
use rk_avp.Packet.{Packet, ControlEvent, event_packet, end_of_stream, is_timestamp_bound}
use rk_avp.Queue.{BoundedQueue, push_control, try_pop}
use rk_avp.Runner.Stream.{move_bound}
use rk_avp.Runner.Sync.{RuntimeNode, Prepared, prepare_invocation, prune_impossible_sync_packets}
use rk_avp.Runner.State.{GraphRunner, EdgeRuntime, InputRuntime, put_edge, put_input, increment}
use rk_avp.Runner.Edges.{
  Delivered, enqueue_edge, drained_at, drain_at, popped, failed, report, deliver, deliver_to,
  before_bound, move_node_bound, count_unmatched, put_node,
}
use rk_avp.Runner.Emission.{emit_edges, first_failure}
use rk_avp.Runner.Inputs.{
  drain_input_at, drained_input_at, popped_input, invoked_node, close_at, close_input,
  bound_of_input, set_bound,
}
use rk_avp.Runner.Halting.{
  IsFailStop, Keeps, set_error-IsFailStop, Keeps-IsFailStop, put_edge-Keeps, found-Keeps,
  put_input-Keeps, input-Keeps, schedule_edge-IsFailStop, schedule_input-IsFailStop,
}
use rk_avp.Runner.FailStop.{Stops, enqueue_edge-IsFailStop, push_control_closed, move_closed}

module _ {D : Type 0} where
  close_at-Stops :
      (r : GraphRunner D) (name : String) (i : InputRuntime D)
      (x : BoundedQueue (Packet D) × Bool × Bool) (now : ℤ)
      → x.0.closed ≡ i.queue.closed
      → Keeps r i.queue.closed
      → Stops (close_at r name i x now)
  close_at-Stops r name i (q, true, dropped) now same h =
      let i' = record i { queue = q } in
      schedule_input-IsFailStop (put_input name i' r) name now (
        Keeps-IsFailStop (put_input name i' r) q.closed
          (put_input-Keeps r name i' (move_closed r q.closed i.queue.closed same h)))
  close_at-Stops r name i (q, false, dropped) now same h =
      let i' = record i { queue = q } in
      Keeps-IsFailStop (put_input name i' r) q.closed
        (put_input-Keeps r name i' (move_closed r q.closed i.queue.closed same h))

  move_node_bound-IsFailStop :
      (r : GraphRunner D) (id : String) (node : RuntimeNode D) (port : String) (t : Timestamp)
      → IsFailStop r
      → IsFailStop (move_node_bound r id node port t)
  move_node_bound-IsFailStop r id node port t h =
      go (prune_impossible_sync_packets (record node { bounds = assign port t node.bounds })).1
    where
      go : (n : ℕ) → IsFailStop (count_unmatched n r)
      go zero = h
      go (suc n) = h

  pub set_bound-Stops :
      (r : GraphRunner D) (name : String) (o : Option (InputRuntime D)) (t : Timestamp)
      → find name r.graph_inputs ≡ o
      → IsFailStop r
      → Stops (set_bound r name o t)
  set_bound-Stops r name none t f h = h
  set_bound-Stops r name (some i) t f h = go (find i.config.node r.nodes)
    where
      go : (o : Option (RuntimeNode D)) → Stops (bound_of_input r name i o t)
      go none = h
      go (some node) =
          if_lem Stops (is_ok (move_bound i.stream t "timestamp bound cannot move backwards").1)
            (λ x.
              let i' = record i {
                stream = (move_bound i.stream t "timestamp bound cannot move backwards").0;
              } in
              let r' = put_input name i' r in
              let kept =
                Keeps-IsFailStop r' i.queue.closed
                  (put_input-Keeps r name i' (input-Keeps r name i f h)) in
              if_lem Stops (before_bound t (find i.config.port node.bounds)) (λ y. kept)
                (λ y. move_node_bound-IsFailStop r' i.config.node node i.config.port t kept))
            (λ x. h)

  report-IsFailStop :
      (o : Option Status) (r : GraphRunner D) → IsFailStop r → IsFailStop (report o r)
  report-IsFailStop none r h = h
  report-IsFailStop (some s) r h = set_error-IsFailStop s r h

  failed-IsFailStop : (s : Status) (r : GraphRunner D) → IsFailStop r → IsFailStop (failed s r)
  failed-IsFailStop s r h = if_lem IsFailStop (is_ok s) (λ x. h) (λ x. set_error-IsFailStop s r h)

  try_pop_closed : (q : BoundedQueue (Packet D)) → (try_pop q).0.closed ≡ q.closed
  unfolding try_pop
  try_pop_closed q = ground arith

  pub drained_at-IsFailStop :
      (r : GraphRunner D) (i : ℕ) (o : Option (EdgeRuntime D)) (now : ℤ)
      → get_elem? r.edges i ≡ o
      → IsFailStop r
      → IsFailStop (drained_at r i o now)
  drained_at-IsFailStop r i none now f h = h
  drained_at-IsFailStop r i (some e) now f h =
      let r' = put_edge i (record e { scheduled = false }) r in
      let kept =
        Keeps-IsFailStop r' e.queue.closed
          (put_edge-Keeps r i (record e { scheduled = false }) (found-Keeps r i e f h)) in
      if_lem IsFailStop (not r.cancelled && not (is_empty e.queue.queue))
        (λ x. schedule_edge-IsFailStop r' i now kept) (λ x. kept)

  pub emit_edges-IsFailStop :
      (r : GraphRunner D) (is : List ℕ) (p : Packet D) (now : ℤ) (first : Status)
      → IsFailStop r
      → IsFailStop (emit_edges r is p now first).runner
  unfolding emit_edges
  emit_edges-IsFailStop r [] p now first h = h
  emit_edges-IsFailStop r (i ∷ is) p now first h =
      let c = enqueue_edge r i p now in
      elim (Option-cases c.answer) [
        | inl a ↦ rw a (enqueue_edge-IsFailStop r i p now h)
        | inr (status, a) ↦ rw a (
            emit_edges-IsFailStop c.runner is p now (first_failure first status)
              (enqueue_edge-IsFailStop r i p now h))
      ]

  pub drained_input_at-IsFailStop :
      (r : GraphRunner D) (name : String) (o : Option (InputRuntime D)) (now : ℤ)
      → find name r.graph_inputs ≡ o
      → IsFailStop r
      → IsFailStop (drained_input_at r name o now)
  drained_input_at-IsFailStop r name none now f h = h
  drained_input_at-IsFailStop r name (some i) now f h =
      let i' = record i { scheduled = false } in
      let r' = put_input name i' r in
      let kept =
        Keeps-IsFailStop r' i.queue.closed (put_input-Keeps r name i' (input-Keeps r name i f h)) in
      if_lem IsFailStop (not r.cancelled && not (is_empty i.queue.queue))
        (λ x. schedule_input-IsFailStop r' name now kept) (λ x. kept)

  pub invoked_node-IsFailStop :
      (r : GraphRunner D) (id : String) (s : Status)
      → IsFailStop r
      → IsFailStop (invoked_node r id s)
  unfolding invoked_node
  invoked_node-IsFailStop r id s h =
      let counted = increment ("node." +s id +s ".processed") 1 r in
      if_lem IsFailStop (is_ok s) (λ x. h) (λ x. set_error-IsFailStop _ counted h)

module _ {D : Type 0} (event_payload : ControlEvent → D) where
  pub close_input-Stops :
      (r : GraphRunner D) (name : String) (o : Option (InputRuntime D)) (now : ℤ)
      → find name r.graph_inputs ≡ o
      → IsFailStop r
      → Stops (close_input event_payload r name o now)
  close_input-Stops r name none now f h = h
  close_input-Stops r name (some i) now f h =
      if_lem Stops (not (member name r.open_inputs)) (λ x. h)
        (λ x.
          let i' = record i { stream = record i.stream { closed = true } } in
          let r' = put_input name i' (record r { open_inputs = remove name r.open_inputs }) in
          let eos = event_packet event_payload end_of_stream Timestamp.done in
          close_at-Stops r' name i' (push_control i'.queue eos) now
            (push_control_closed i'.queue eos)
            (put_input-Keeps (record r { open_inputs = remove name r.open_inputs }) name i'
              (input-Keeps r name i f h)))

  deliver_to-IsFailStop :
      (r : GraphRunner D) (id : String) (o : Option (RuntimeNode D)) (port : String) (p : Packet D)
      → IsFailStop r
      → IsFailStop (deliver_to event_payload r id o port p).runner
  deliver_to-IsFailStop r id none port p h = h
  deliver_to-IsFailStop r id (some node) port p h =
      if_lem (λ (d : Delivered D). IsFailStop d.runner) (is_timestamp_bound p.event)
        (λ x.
          if_lem (λ (d : Delivered D). IsFailStop d.runner)
            (before_bound p.timestamp (find port node.bounds)) (λ y. h)
            (λ y. move_node_bound-IsFailStop r id node port p.timestamp h))
        (λ x.
          report-IsFailStop prepared.error
            (put_node id prepared.node (count_unmatched prepared.dropped r)) (go prepared.dropped))
    where
      prepared : Prepared D
      prepared = prepare_invocation event_payload node port p

      go : (n : ℕ) → IsFailStop (put_node id prepared.node (count_unmatched n r))
      go zero = h
      go (suc n) = h

  deliver-IsFailStop :
      (r : GraphRunner D) (id port : String) (p : Packet D)
      → IsFailStop r
      → IsFailStop (deliver event_payload r id port p).runner
  unfolding deliver
  deliver-IsFailStop r id port p h = deliver_to-IsFailStop r id (find id r.nodes) port p h

  popped-IsFailStop :
      (r : GraphRunner D) (i : ℕ) (e : EdgeRuntime D)
      (x : BoundedQueue (Packet D) × Option (Packet D))
      → x.0.closed ≡ e.queue.closed
      → Keeps r e.queue.closed
      → IsFailStop (popped event_payload r i e x).runner
  popped-IsFailStop r i e (q, none) same h = Keeps-IsFailStop r e.queue.closed h
  popped-IsFailStop r i e (q, some p) same h =
      let r' = put_edge i (record e { queue = q }) r in
      let d =
        deliver event_payload (increment "edge.delivered" 1 r') e.config.to_node e.config.to_port
          p in
      failed-IsFailStop d.status d.runner (
        deliver-IsFailStop (increment "edge.delivered" 1 r') e.config.to_node e.config.to_port p (
          Keeps-IsFailStop r' q.closed (
            put_edge-Keeps r i (record e { queue = q })
              (move_closed r q.closed e.queue.closed same h))))

  pub drain_at-IsFailStop :
      (r : GraphRunner D) (i : ℕ) (o : Option (EdgeRuntime D))
      → get_elem? r.edges i ≡ o
      → IsFailStop r
      → IsFailStop (drain_at event_payload r i o).runner
  drain_at-IsFailStop r i none f h = h
  drain_at-IsFailStop r i (some e) f h =
      popped-IsFailStop r i e (try_pop e.queue) (try_pop_closed e.queue) (found-Keeps r i e f h)

  popped_input-IsFailStop :
      (r : GraphRunner D) (name : String) (i : InputRuntime D)
      (x : BoundedQueue (Packet D) × Option (Packet D))
      → x.0.closed ≡ i.queue.closed
      → Keeps r i.queue.closed
      → IsFailStop (popped_input event_payload r name i x).runner
  popped_input-IsFailStop r name i (q, none) same h = Keeps-IsFailStop r i.queue.closed h
  popped_input-IsFailStop r name i (q, some p) same h =
      let r' = put_input name (record i { queue = q }) r in
      let d = deliver event_payload r' i.config.node i.config.port p in
      failed-IsFailStop d.status d.runner (
        deliver-IsFailStop r' i.config.node i.config.port p (
          Keeps-IsFailStop r' q.closed (
            put_input-Keeps r name (record i { queue = q })
              (move_closed r q.closed i.queue.closed same h))))

  pub drain_input_at-IsFailStop :
      (r : GraphRunner D) (name : String) (o : Option (InputRuntime D))
      → find name r.graph_inputs ≡ o
      → IsFailStop r
      → IsFailStop (drain_input_at event_payload r name o).runner
  drain_input_at-IsFailStop r name none f h = h
  drain_input_at-IsFailStop r name (some i) f h =
      popped_input-IsFailStop r name i (try_pop i.queue) (try_pop_closed i.queue)
        (input-Keeps r name i f h)
