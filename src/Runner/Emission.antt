-- ===== src/Runner/Emission.antt =====
-- `GraphRunner::Emit` of src/core/graph_runner.cpp: what a node sends out goes to the observers of
-- the graph outputs it feeds and then to the edges of its port. `graph_outputs_` and the observers
-- stand beside the runner. A call that sleeps in the `Push` of an edge answers `none`, with the
-- edges that are left.
pub mod Subscriptions
pub mod Reaches
use rk_avp.Prelude.{
  ℕ, Bool, true, false, ◌&&◌, ◌||◌, not, List, [], ◌∷◌, ◌++◌, Option, none, some, String,
  if◌then◌else◌, string_keys, nat_keys, ℤ,
}
use rk_avp.Prelude.Maps.{find}
use rk_avp.Prelude.Names.{remove}
use rk_avp.Status.{Status, is_ok, ◌+s◌}
use rk_avp.Status
use rk_avp.Packet.{Packet, is_timestamp_bound, is_end_of_stream}
use rk_avp.Runner.State.{GraphRunner}
use rk_avp.Runner.Edges.{Called, enqueue_edge, count_dropped}
use rk_avp.Runner.Observers.{ObserverRuntime, ObserverTable, enqueue_observer, put_observer, ids_of}

pub record Emitter (D : Type 0) : Type 0 where
  pub runner : GraphRunner D
  pub graph_outputs : List (String × List String)
  pub table : ObserverTable D

-- `left` are the edges after the one at which the call sleeps.
pub record Emitted (D : Type 0) : Type 0 where
  pub runner : GraphRunner D
  pub answer : Option Status
  pub first_error : Status
  pub left : List ℕ

-- Of two statuses in the order in which they come, the error to report.
abbrev pub first_failure : Status → Status → Status
first_failure first status = if not (is_ok status) && is_ok first then status else first

abbrev pub streams_of : Option (List String) → List String
streams_of none = []
streams_of (some ss) = ss

-- The observers of the streams, in order.
unfoldable pub callbacks : List (String × List ℕ) → List String → List ℕ
callbacks observers [] = []
callbacks observers (s ∷ ss) = ids_of (find s observers) ++ callbacks observers ss

module _ {D : Type 0} where
  abbrev pub shows : Packet D → ObserverRuntime D → Bool
  shows p o = not (is_timestamp_bound p.event) || o.options.observe_timestamp_bounds

  abbrev pub shown : Emitter D → ℕ → ObserverRuntime D × Bool → Emitter D
  shown e id (o, dropped) = record e {
    table = put_observer id o e.table;
    runner = count_dropped dropped ("observer." +s o.stream +s ".dropped") e.runner;
  }

  abbrev pub show_to : Packet D → Emitter D → ℕ → Option (ObserverRuntime D) → Emitter D
  show_to p e id none = e
  show_to p e id (some o) = if shows p o then shown e id (enqueue_observer o p) else e

  -- The loop over `callbacks`.
  unfoldable pub show_each : Packet D → Emitter D → List ℕ → Emitter D
  show_each p e [] = e
  show_each p e (id ∷ ids) = show_each p (show_to p e id (find id e.table.runtimes)) ids

  abbrev pub emit_after :
      (GraphRunner D → Status → Emitted D) → Called D → Status → List ℕ → Emitted D
  emit_after continues c first left = elim c.answer [
    | none ↦ record { runner = c.runner; answer = none; first_error = first; left = left }
    | some status ↦ continues c.runner (first_failure first status)
  ]

  -- The loop over the edges of the route.
  unfoldable pub emit_edges : GraphRunner D → List ℕ → Packet D → ℤ → Status → Emitted D
  emit_edges r [] p now first = record {
    runner = r;
    answer = some first;
    first_error = first;
    left = [];
  }
  emit_edges r (i ∷ is) p now first =
      emit_after (λ r' first'. emit_edges r' is p now first') (enqueue_edge r i p now) first is

  abbrev pub end_source : Packet D → String → GraphRunner D → GraphRunner D
  end_source p node_id r =
      if is_end_of_stream p.event
      then record r { open_source_nodes = remove node_id r.open_source_nodes }
      else r

  -- The part of the call before the edges.
  unfoldable pub emit_outputs : Emitter D → String → String → Packet D → Emitter D
  unfolding callbacks show_each
  emit_outputs e node_id endpoint p =
      let e' = record e { runner = end_source p node_id e.runner } in
      show_each p e' (callbacks e.table.observers (streams_of (find endpoint e.graph_outputs)))

  abbrev pub emit_routes :
      Emitter D → Option (List ℕ) → Packet D → ℤ → Emitter D × Option Status × List ℕ
  emit_routes e none p now = (e, some Status.ok, [])
  emit_routes e (some is) p now =
      let sent = emit_edges e.runner is p now Status.ok in
      (record e { runner = sent.runner }, sent.answer, sent.left)

  unfoldable pub emit :
      Emitter D → String → String → Packet D → ℤ → Emitter D × Option Status × List ℕ
  unfolding emit_outputs emit_edges
  emit e node_id output_port p now =
      if e.runner.cancelled
      then (e, some (Status.cancelled "graph is cancelled"), [])
      else let endpoint = node_id +s "." +s output_port in
        let e' = emit_outputs e node_id endpoint p in
        emit_routes e' (find endpoint e'.runner.routes) p now
