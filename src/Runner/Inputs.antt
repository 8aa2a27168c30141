-- ===== src/Runner/Inputs.antt =====
-- The graph inputs of src/core/graph_runner.cpp: `AddPacket`, `SetInputTimestampBound`,
-- `CloseInputStream` and `DrainInput`, and the end of `Invoke`. `none` is a call asleep in `Push`; `offer_input` is what it runs when woken.
use rk_avp.Prelude.{
  suc, Bool, true, false, ◌&&◌, not, Option, none, some, String, if◌then◌else◌, string_keys, ℤ,
  is_empty,
}
use rk_avp.Prelude.Maps.{find}
use rk_avp.Prelude.Names.{member, remove}
use rk_avp.Status.{Status, is_ok, ◌+s◌}
use rk_avp.Status
use rk_avp.Timestamp.{Timestamp, lt, is_unset}
use rk_avp.Timestamp
use rk_avp.Packet.{Packet, ControlEvent, end_of_stream, event_packet}
use rk_avp.Queue.{BoundedQueue, push, push_control, try_pop}
use rk_avp.Runner.Stream.{validate_stream_packet, move_bound}
use rk_avp.Runner.Sync.{RuntimeNode}
use rk_avp.Runner.State.{
  GraphRunner, InputRuntime, set_error, increment, put_input, schedule_input, begin_operation,
  end_operation,
}
use rk_avp.Runner.Edges.{
  Called, Delivered, deliver, failed, answered, count_dropped, is_drop_newest, before_bound,
  move_node_bound,
}

module _ {D : Type 0} where
  abbrev pub answer_push :
      GraphRunner D
      → String
      → InputRuntime D
      → Option (BoundedQueue (Packet D) × Bool × Bool)
      → ℤ
      → Called D
  answer_push r stream i none now = record { runner = r; answer = none }
  answer_push r stream i (some (q, pushed, dropped)) now =
      let i' = record i { queue = q; dropped = if dropped then suc i.dropped else i.dropped } in
      let r' = put_input stream i' r in
      let r'' = count_dropped dropped ("input." +s stream +s ".dropped") r' in
      if pushed
      then answered (schedule_input r'' stream now) Status.ok
      else if dropped && is_drop_newest i.config.queue.policy
      then answered r'' Status.ok
      else answered r'' (
          if r.cancelled
          then Status.cancelled "graph input queue is closed"
          else Status.unavailable ("graph input queue rejected packet: " +s stream))

  unfoldable pub offer_input : GraphRunner D → String → InputRuntime D → Packet D → ℤ → Called D
  offer_input r stream i p now = answer_push r stream i (push i.queue p) now

  abbrev pub add_to : GraphRunner D → String → Option (InputRuntime D) → Packet D → ℤ → Called D
  add_to r stream none p now =
      answered r (Status.not_found ("graph input stream not found: " +s stream))
  add_to r stream (some i) p now =
      let (last, status) =
        validate_stream_packet p.timestamp i.stream.last_timestamp i.stream.bound i.stream.closed
          stream in
      let i' = record i { stream = record i.stream { last_timestamp = last } } in
      if is_ok status
      then offer_input (put_input stream i' r) stream i' p now
      else answered (put_input stream i' r) status

  -- `ScopeExit` ends the operation when the call returns.
  abbrev pub ended : Called D → Called D
  ended c = elim c.answer [ none ↦ c | some s ↦ record c { runner = end_operation c.runner } ]

  abbrev pub begun : Option (GraphRunner D) → GraphRunner D → (GraphRunner D → Called D) → Called D
  begun none r body = answered r (Status.failed_precondition "graph runner is not accepting input")
  begun (some r') r body = ended (body r')

  unfoldable pub add_packet : GraphRunner D → String → Packet D → ℤ → Called D
  unfolding offer_input begin_operation end_operation
  add_packet r stream p now = begun (begin_operation r) r (λ r'.
      if r'.cancelled
      then answered r' (Status.cancelled "graph runner is cancelled")
      else add_to r' stream (find stream r'.graph_inputs) p now)

  abbrev pub close_at :
      GraphRunner D → String → InputRuntime D → BoundedQueue (Packet D) × Bool × Bool → ℤ → Called D
  close_at r stream i (q, true, dropped) now =
      answered (schedule_input (put_input stream (record i { queue = q }) r) stream now) Status.ok
  close_at r stream i (q, false, dropped) now =
      answered (put_input stream (record i { queue = q }) r)
        (Status.unavailable ("failed to enqueue input EOS: " +s stream))

module _ {D : Type 0} (event_payload : ControlEvent → D) where
  abbrev pub close_input : GraphRunner D → String → Option (InputRuntime D) → ℤ → Called D
  close_input r stream none now =
      answered r (Status.not_found ("graph input stream not found: " +s stream))
  close_input r stream (some i) now =
      let i' = record i { stream = record i.stream { closed = true } } in
      let eos = event_packet event_payload end_of_stream Timestamp.done in
      if not (member stream r.open_inputs)
      then answered r
          (Status.failed_precondition ("graph input stream is already closed: " +s stream))
      else close_at (put_input stream i' (record r { open_inputs = remove stream r.open_inputs }))
          stream i' (push_control i'.queue eos) now

  unfoldable pub close_input_stream : GraphRunner D → String → ℤ → Called D
  unfolding begin_operation end_operation
  close_input_stream r stream now =
      begun (begin_operation r) r (λ r'. close_input r' stream (find stream r'.graph_inputs) now)

module _ {D : Type 0} where
  abbrev pub bound_of_node : GraphRunner D → InputRuntime D → RuntimeNode D → Timestamp → Called D
  bound_of_node r i node t =
      if before_bound t (find i.config.port node.bounds)
      then answered r (Status.invalid "timestamp bound cannot move backwards")
      else answered (move_node_bound r i.config.node node i.config.port t) Status.ok

  abbrev pub bound_of_input :
      GraphRunner D → String → InputRuntime D → Option (RuntimeNode D) → Timestamp → Called D
  bound_of_input r stream i none t = answered r (Status.not_found "runtime node not found")
  bound_of_input r stream i (some node) t =
      let (s, status) = move_bound i.stream t "timestamp bound cannot move backwards" in
      if is_ok status
      then bound_of_node (put_input stream (record i { stream = s }) r) i node t
      else answered r status

  abbrev pub set_bound : GraphRunner D → String → Option (InputRuntime D) → Timestamp → Called D
  set_bound r stream none t =
      answered r (Status.not_found ("graph input stream not found: " +s stream))
  set_bound r stream (some i) t = bound_of_input r stream i (find i.config.node r.nodes) t

  unfoldable pub set_input_timestamp_bound : GraphRunner D → String → Timestamp → Called D
  unfolding begin_operation end_operation
  set_input_timestamp_bound r stream t = begun (begin_operation r) r (λ r'.
      if is_unset t
      then answered r' (Status.invalid "timestamp bound cannot be unset")
      else set_bound r' stream (find stream r'.graph_inputs) t)

module _ {D : Type 0} where
  -- The end of `DrainInput`, after the node has been invoked.
  abbrev pub drained_input_at : GraphRunner D → String → Option (InputRuntime D) → ℤ → GraphRunner D
  drained_input_at r stream none now = r
  drained_input_at r stream (some i) now =
      let r' = put_input stream (record i { scheduled = false }) r in
      if not r.cancelled && not (is_empty i.queue.queue) then schedule_input r' stream now else r'

  unfoldable pub drained_input : GraphRunner D → String → ℤ → GraphRunner D
  drained_input r stream now = drained_input_at r stream (find stream r.graph_inputs) now

  -- The end of `Invoke`: the counter of the node, and an error that its `Process` has answered.
  unfoldable pub invoked_node : GraphRunner D → String → Status → GraphRunner D
  unfolding set_error
  invoked_node r id status =
      let counted = increment ("node." +s id +s ".processed") 1 r in
      if is_ok status
      then counted
      else set_error
          (record { code = status.code; message = "node " +s id +s ": " +s status.message }) counted

module _ {D : Type 0} (event_payload : ControlEvent → D) where
  abbrev pub popped_input :
      GraphRunner D
      → String
      → InputRuntime D
      → BoundedQueue (Packet D) × Option (Packet D)
      → Delivered D
  popped_input r stream i (q, none) = record { runner = r; status = Status.ok; invoked = none }
  popped_input r stream i (q, some p) =
      let d =
        deliver event_payload (put_input stream (record i { queue = q }) r) i.config.node
          i.config.port p in
      record d { runner = failed d.status d.runner }

  abbrev pub drain_input_at : GraphRunner D → String → Option (InputRuntime D) → Delivered D
  drain_input_at r stream none = record { runner = r; status = Status.ok; invoked = none }
  drain_input_at r stream (some i) = popped_input r stream i (try_pop i.queue)

  -- `DrainInput` up to the invocation of the node.
  unfoldable pub drain_input : GraphRunner D → String → Delivered D
  unfolding deliver
  drain_input r stream = drain_input_at r stream (find stream r.graph_inputs)
