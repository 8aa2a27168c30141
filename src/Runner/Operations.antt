-- ===== src/Runner/Operations.antt =====
-- Sequences of operations on a runner, of src/core/graph_runner.cpp.
use rk_avp.Prelude.{ℕ, refl, inr, List, [], ◌∷◌, String, string_keys, ℤ, get_elem?, if_lem}
use rk_avp.Prelude.Maps.{find}
use rk_avp.Status.{Status, is_ok}
use rk_avp.Status
use rk_avp.Timestamp.{Timestamp, is_unset}
use rk_avp.Packet.{Packet, ControlEvent}
use rk_avp.Runner.State.{GraphRunner, set_error, cancel, close_queues, begin_operation}
use rk_avp.Runner.Edges.{enqueue_edge, drain_edge, drained_edge}
use rk_avp.Runner.Emission.{emit_edges}
use rk_avp.Runner.Inputs.{
  drain_input, drained_input, invoked_node, add_packet, close_input_stream,
  set_input_timestamp_bound,
}
use rk_avp.Runner.Halting.{
  IsFailStop, set_error-IsFailStop, close_edges-EdgesClosed, close_inputs-InputsClosed,
}
use rk_avp.Runner.FailStop.{Stops, enqueue_edge-IsFailStop, add_packet-IsFailStop, begun-Stops}
use rk_avp.Runner.Delivery.{
  close_input-Stops, set_bound-Stops, drain_at-IsFailStop, drained_at-IsFailStop,
  emit_edges-IsFailStop, drain_input_at-IsFailStop, drained_input_at-IsFailStop,
  invoked_node-IsFailStop,
}

pub data Operation (D : Type 0) : Type 0 where
  adds : String → Packet D → ℤ → Operation D
  closes : String → ℤ → Operation D
  bounds : String → Timestamp → Operation D
  enqueues : ℕ → Packet D → ℤ → Operation D
  emits : List ℕ → Packet D → ℤ → Operation D
  drains : ℕ → Operation D
  ends_drain : ℕ → ℤ → Operation D
  drains_input : String → Operation D
  ends_input_drain : String → ℤ → Operation D
  ends_invocation : String → Status → Operation D
  reports : Status → Operation D
  cancels : Operation D

module _ {D : Type 0} (event_payload : ControlEvent → D) where
  unfoldable pub operate : GraphRunner D → Operation D → GraphRunner D
  operate r (adds name p now) = (add_packet r name p now).runner
  operate r (closes name now) = (close_input_stream event_payload r name now).runner
  operate r (bounds name t) = (set_input_timestamp_bound r name t).runner
  operate r (enqueues i p now) = (enqueue_edge r i p now).runner
  operate r (emits is p now) = (emit_edges r is p now Status.ok).runner
  operate r (drains i) = (drain_edge event_payload r i).runner
  operate r (ends_drain i now) = drained_edge r i now
  operate r (drains_input name) = (drain_input event_payload r name).runner
  operate r (ends_input_drain name now) = drained_input r name now
  operate r (ends_invocation id s) = invoked_node r id s
  operate r (reports s) = set_error s r
  operate r cancels = cancel r

  unfoldable pub operate_all : GraphRunner D → List (Operation D) → GraphRunner D
  operate_all r [] = r
  operate_all r (o ∷ os) = operate_all (operate r o) os

  operate-IsFailStop :
      (r : GraphRunner D) (o : Operation D) → IsFailStop r → IsFailStop (operate r o)
  unfolding operate close_input_stream set_input_timestamp_bound drain_edge drained_edge drain_input
      drained_input cancel close_queues
  operate-IsFailStop r (adds name p now) h = add_packet-IsFailStop r name p now h
  operate-IsFailStop r (closes name now) h =
      begun-Stops (begin_operation r) r _ refl h
        (λ k i. close_input-Stops event_payload k name (find name k.graph_inputs) now refl i)
  operate-IsFailStop r (bounds name t) h = begun-Stops (begin_operation r) r _ refl h (λ k i.
      if_lem Stops (is_unset t) (λ x. i)
        (λ x. set_bound-Stops k name (find name k.graph_inputs) t refl i))
  operate-IsFailStop r (enqueues i p now) h = enqueue_edge-IsFailStop r i p now h
  operate-IsFailStop r (emits is p now) h = emit_edges-IsFailStop r is p now Status.ok h
  operate-IsFailStop r (drains i) h =
      drain_at-IsFailStop event_payload r i (get_elem? r.edges i) refl h
  operate-IsFailStop r (ends_drain i now) h =
      drained_at-IsFailStop r i (get_elem? r.edges i) now refl h
  operate-IsFailStop r (drains_input name) h =
      drain_input_at-IsFailStop event_payload r name (find name r.graph_inputs) refl h
  operate-IsFailStop r (ends_input_drain name now) h =
      drained_input_at-IsFailStop r name (find name r.graph_inputs) now refl h
  operate-IsFailStop r (ends_invocation id s) h = invoked_node-IsFailStop r id s h
  operate-IsFailStop r (reports s) h = set_error-IsFailStop s r h
  operate-IsFailStop r cancels h =
      inr (refl, close_edges-EdgesClosed r.edges, close_inputs-InputsClosed r.graph_inputs)

  -- The runner is fail-stop: whatever operations follow, a runner that has recorded an error is
  -- cancelled and each of its queues is closed.
  pub operate_all-IsFailStop :
      (r : GraphRunner D) (os : List (Operation D)) → IsFailStop r → IsFailStop (operate_all r os)
  unfolding operate_all
  operate_all-IsFailStop r [] h = h
  operate_all-IsFailStop r (o ∷ os) h =
      operate_all-IsFailStop (operate r o) os (operate-IsFailStop r o h)
