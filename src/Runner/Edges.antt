-- ===== src/Runner/Edges.antt =====
-- `EnqueueEdge`, `Deliver` and `DrainEdge` of src/core/graph_runner.cpp. A call that sleeps in
-- `Push` answers `none`, with what it has changed so far; `offer_edge` is the part that it runs
-- when it is woken. What a node does with its inputs is not part of the runner: `Deliver` answers
-- with the input set that it invokes the node with.
use rk_avp.Prelude.{
  ℕ, zero, suc, Bool, true, false, ◌&&◌, ◌||◌, not, Option, none, some, String, if◌then◌else◌,
  string_keys, ℤ, get_elem?, is_empty,
}
use rk_avp.Prelude.Maps.{find, assign}
use rk_avp.Status.{Status, is_ok, ◌+s◌}
use rk_avp.Status
use rk_avp.Timestamp.{Timestamp, lt}
use rk_avp.Packet.{
  Packet, ControlEvent, timestamp_bound, end_of_stream, is_timestamp_bound, is_end_of_stream,
}
use rk_avp.Queue.{BoundedQueue, QueuePolicy, drop_newest, push, push_control, try_pop}
use rk_avp.Graph.{EdgeConfig}
use rk_avp.Runner.Stream.{Arrival, packet, bound, ends, arrive}
use rk_avp.Runner.Sync.{RuntimeNode, PacketSet, prepare_invocation, prune_impossible_sync_packets}
use rk_avp.Runner.State.{GraphRunner, EdgeRuntime, increment, put_edge, set_error, schedule_edge}

-- `none` is a call asleep in `Push`.
pub record Called (D : Type 0) : Type 0 where
  pub runner : GraphRunner D
  pub answer : Option Status

abbrev pub is_drop_newest : QueuePolicy → Bool
is_drop_newest drop_newest = true
is_drop_newest _ = false

abbrev pub edge_metric : EdgeConfig → String
edge_metric c =
    "edge." +s c.from_node +s "." +s c.from_port +s "_to_" +s c.to_node +s "." +s c.to_port

-- Which arrival on the stream a packet is.
abbrev pub arrival_by : ControlEvent → Timestamp → Arrival
arrival_by timestamp_bound t = bound t
arrival_by end_of_stream t = ends
arrival_by _ t = packet t

abbrev pub is_control : ControlEvent → Bool
is_control e = is_timestamp_bound e || is_end_of_stream e

abbrev pub edge_stream : EdgeConfig → String
edge_stream c = c.from_node +s "." +s c.from_port

module _ {D : Type 0} where
  abbrev pub answered : GraphRunner D → Status → Called D
  answered r s = record { runner = r; answer = some s }

  -- The queue after the push, `pushed` and `dropped`.
  abbrev pub push_packet :
      BoundedQueue (Packet D) → Packet D → Option (BoundedQueue (Packet D) × Bool × Bool)
  push_packet q p = if is_control p.event then some (push_control q p) else push q p

  abbrev pub count_dropped : Bool → String → GraphRunner D → GraphRunner D
  count_dropped dropped name r = if dropped then increment name 1 r else r

  abbrev pub offered :
      GraphRunner D
      → ℕ
      → EdgeRuntime D
      → Option (BoundedQueue (Packet D) × Bool × Bool)
      → ℤ
      → Called D
  offered r i e none now = record { runner = r; answer = none }
  offered r i e (some (q, pushed, dropped)) now =
      let e' = record e { queue = q; dropped = if dropped then suc e.dropped else e.dropped } in
      let r' = count_dropped dropped (edge_metric e.config +s ".dropped") (put_edge i e' r) in
      if pushed
      then answered (schedule_edge r' i now) Status.ok
      else if dropped && is_drop_newest e.config.queue.policy
      then answered r' Status.ok
      else answered r' (
          if r.cancelled
          then Status.cancelled "edge is closed"
          else Status.unavailable "edge rejected packet")

  unfoldable pub offer_edge : GraphRunner D → ℕ → EdgeRuntime D → Packet D → ℤ → Called D
  offer_edge r i e p now = offered r i e (push_packet e.queue p) now

  abbrev pub enqueue_at : GraphRunner D → ℕ → Option (EdgeRuntime D) → Packet D → ℤ → Called D
  enqueue_at r i none p now = answered r (Status.internal "edge index out of range")
  enqueue_at r i (some e) p now =
      let (stream, status) =
        arrive (edge_stream e.config) e.stream (arrival_by p.event p.timestamp) in
      let e' = record e { stream = stream } in
      if is_ok status
      then offer_edge (put_edge i e' r) i e' p now
      else answered (put_edge i e' r) status

  unfoldable pub enqueue_edge : GraphRunner D → ℕ → Packet D → ℤ → Called D
  unfolding offer_edge
  enqueue_edge r i p now = enqueue_at r i (get_elem? r.edges i) p now

-- What `Deliver` answers, and what it invokes the node with.
pub record Delivered (D : Type 0) : Type 0 where
  pub runner : GraphRunner D
  pub status : Status
  pub invoked : Option (PacketSet D)

abbrev pub before_bound : Timestamp → Option Timestamp → Bool
before_bound t none = false
before_bound t (some old) = lt t old

module _ {D : Type 0} where
  -- One increment for each timestamp that pruning drops.
  abbrev pub count_unmatched : ℕ → GraphRunner D → GraphRunner D
  count_unmatched zero r = r
  count_unmatched (suc n) r = increment "graph.sync_unmatched_dropped" (suc n) r

  abbrev pub put_node : String → RuntimeNode D → GraphRunner D → GraphRunner D
  put_node id node r = record r { nodes = assign id node r.nodes }

  -- `bounds[port] = bound`, and pruning.
  abbrev pub move_node_bound :
      GraphRunner D → String → RuntimeNode D → String → Timestamp → GraphRunner D
  move_node_bound r id node port t =
      let (node', n) =
        prune_impossible_sync_packets (record node { bounds = assign port t node.bounds }) in
      put_node id node' (count_unmatched n r)

  abbrev pub report : Option Status → GraphRunner D → GraphRunner D
  report none r = r
  report (some s) r = set_error s r

  abbrev pub failed : Status → GraphRunner D → GraphRunner D
  failed status r = if is_ok status then r else set_error status r

  -- The end of `DrainEdge`, after the node has been invoked.
  abbrev pub drained_at : GraphRunner D → ℕ → Option (EdgeRuntime D) → ℤ → GraphRunner D
  drained_at r i none now = r
  drained_at r i (some e) now =
      let r' = put_edge i (record e { scheduled = false }) r in
      if not r.cancelled && not (is_empty e.queue.queue) then schedule_edge r' i now else r'

  unfoldable pub drained_edge : GraphRunner D → ℕ → ℤ → GraphRunner D
  drained_edge r i now = drained_at r i (get_elem? r.edges i) now

module _ {D : Type 0} (event_payload : ControlEvent → D) where
  abbrev pub deliver_to :
      GraphRunner D → String → Option (RuntimeNode D) → String → Packet D → Delivered D
  deliver_to r id none port p = record {
    runner = r;
    status = Status.not_found ("runtime node not found: " +s id);
    invoked = none;
  }
  deliver_to r id (some node) port p =
      let prepared = prepare_invocation event_payload node port p in
      if is_timestamp_bound p.event
      then (if before_bound p.timestamp (find port node.bounds)
          then record {
            runner = r;
            status =
                Status.invalid ("timestamp bound cannot move backwards on " +s id +s "." +s port);
            invoked = none;
          }
          else record {
            runner = move_node_bound r id node port p.timestamp;
            status = Status.ok;
            invoked = none;
          })
      else record {
        runner =
            report prepared.error (put_node id prepared.node (count_unmatched prepared.dropped r));
        status = Status.ok;
        invoked = prepared.inputs;
      }

  unfoldable pub deliver : GraphRunner D → String → String → Packet D → Delivered D
  deliver r id port p = deliver_to r id (find id r.nodes) port p

  abbrev pub popped :
      GraphRunner D → ℕ → EdgeRuntime D → BoundedQueue (Packet D) × Option (Packet D) → Delivered D
  popped r i e (q, none) = record { runner = r; status = Status.ok; invoked = none }
  popped r i e (q, some p) =
      let d =
        deliver (increment "edge.delivered" 1 (put_edge i (record e { queue = q }) r))
          e.config.to_node e.config.to_port p in
      record d { runner = failed d.status d.runner }

  abbrev pub drain_at : GraphRunner D → ℕ → Option (EdgeRuntime D) → Delivered D
  drain_at r i none = record { runner = r; status = Status.ok; invoked = none }
  drain_at r i (some e) = popped r i e (try_pop e.queue)

  -- `DrainEdge` up to the invocation of the node.
  unfoldable pub drain_edge : GraphRunner D → ℕ → Delivered D
  unfolding deliver
  drain_edge r i = drain_at r i (get_elem? r.edges i)
