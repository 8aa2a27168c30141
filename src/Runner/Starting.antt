-- ===== src/Runner/Starting.antt =====
-- `Start` of src/core/graph_runner.cpp. What fails after the executors have been started is undone by
-- `Stop`. The payload that a configured value becomes is given.
pub mod Kept
pub mod Balance
pub mod Stopped
pub mod Started
pub mod Runs
use rk_avp.Prelude.{
  ℕ, zero, suc, Bool, true, false, ◌&&◌, ◌||◌, not, List, [], ◌∷◌, ◌++◌, map, Option, none, some,
  String, ◌==◌, ◌=?◌, if◌then◌else◌, string_keys, ℤ, pos, is_empty,
}
use rk_avp.Prelude.Maps.{find, assign, emplace, contains}
use rk_avp.Status.{Status, is_ok, Result, to_status, ◌+s◌}
use rk_avp.Status
use rk_avp.Timestamp.{from_microseconds}
use rk_avp.Packet.{Packet, make}
use rk_avp.ConfigValue.{ConfigValue, Object}
use rk_avp.Node.Contract.{NodeContract}
use rk_avp.Graph.{GraphConfig, ExecutorConfig, NodeConfig, EdgeConfig, SourceSlotConfig}
use rk_avp.Graph.Validation.{Registry, validate}
use rk_avp.Registry.{set_side_packet}
use rk_avp.Scheduler.{Scheduler, make_scheduler}
use rk_avp.Scheduler
use rk_avp.Runner.Sync.{RuntimeNode}
use rk_avp.Runner.State.{GraphRunner, EdgeRuntime, set_error, close_queues}
use rk_avp.Runner.Edges.{Called, enqueue_edge}
use rk_avp.Runner.Tables.{build_edges, build_inputs, build_outputs, build_slots, insert}
use rk_avp.Runner.Lifetime.{
  Lifetime, NodeClasses, Changed, Call, configures, opens, starts, closes, put_runner, stop_with,
}

module _ {D : Type 0} where
  abbrev pub and_then :
      Lifetime D × Status → (Lifetime D → Lifetime D × Status) → Lifetime D × Status
  and_then (l, status) later = if is_ok status then later l else (l, status)

  unfoldable pub start_executors : List ExecutorConfig → Lifetime D → Lifetime D × Status
  start_executors [] l = (l, Status.ok)
  start_executors (c ∷ cs) l =
      let (s, status) = Scheduler.start (make_scheduler c.threads c.queue_capacity c.name) in
      let executors = (emplace c.name s l.runner.executors).0 in
      let rest = start_executors cs (put_runner (record l.runner { executors = executors }) l) in
      if is_ok status then rest else (l, status)

  unfoldable pub start_control : Lifetime D → Lifetime D × Status
  start_control l =
      let (s, status) = Scheduler.start (make_scheduler 1 64 "control") in
      (record l { control_executor = some s }, status)

module _ {D : Type 0} where
  -- `contract.input_policy` and `contract.trigger_port` give way to the configuration.
  abbrev pub new_runtime : NodeConfig → NodeContract → RuntimeNode D
  new_runtime c contract = record {
    id = c.id;
    executor = c.executor;
    inputs = contract.inputs;
    input_policy = if c.has_input_policy then c.input_policy else contract.input_policy;
    trigger_port = if c.trigger_port =? "" then contract.trigger_port else c.trigger_port;
    latest_packets = [];
    pending = [];
    closed_ports = [];
    bounds = [];
    eos_dispatched = false;
  }

  abbrev pub has_no_inputs : Option (RuntimeNode D) → Bool
  has_no_inputs none = false
  has_no_inputs (some node) = is_empty node.inputs

  -- The node is open: it joins the runner.
  unfoldable pub add_node : NodeConfig → NodeContract → Lifetime D → Lifetime D
  add_node c contract l =
      let nodes = (emplace c.id (new_runtime c contract) l.runner.nodes).0 in
      let sources = l.runner.open_source_nodes in
      record l {
        runner = record l.runner {
          nodes = nodes;
          open_source_nodes =
              if has_no_inputs (find c.id nodes) then insert c.id sources else sources;
        };
        lifecycle_order = l.lifecycle_order ++ c.id ∷ [];
      }

  abbrev pub called : Call → Lifetime D → Lifetime D
  called c l = record l { calls = l.calls ++ c ∷ [] }

  abbrev pub open_failed : String → Status → Lifetime D → Lifetime D × Status
  open_failed id status l =
      (called (closes id) l, Status.internal ("node " +s id +s ": " +s status.message))

  abbrev pub start_failed : String → Status → GraphRunner D → GraphRunner D
  start_failed id status r =
      if is_ok status
      then r
      else set_error (Status.internal ("node " +s id +s " start failed: " +s status.message)) r

module _ {D : Type 0} (classes : NodeClasses D) where
  -- `Configure`, then `Open`; a node that fails in either is closed.
  abbrev pub open_configured : NodeConfig → NodeContract → Lifetime D → Lifetime D × Status
  open_configured c contract l =
      let configured = classes.on_configure c.id in
      let opened = classes.on_open c.id in
      let l' = called (configures c.id) l in
      let l'' = called (opens c.id) l' in
      if not (is_ok configured)
      then open_failed c.id configured l'
      else if not (is_ok opened)
      then open_failed c.id opened l''
      else (add_node c contract l'', Status.ok)

  abbrev pub create_node : NodeConfig → Option NodeContract → Lifetime D → Lifetime D × Status
  create_node c none l = (l, Status.not_found ("node type disappeared: " +s c.type))
  create_node c (some contract) l = open_configured c contract l

  unfoldable pub create_nodes : List NodeConfig → Lifetime D → Lifetime D × Status
  unfolding add_node
  create_nodes [] l = (l, Status.ok)
  create_nodes (c ∷ cs) l =
      and_then (create_node c (classes.create c.type) l) (λ l'. create_nodes cs l')

  unfoldable pub start_nodes : List String → Lifetime D → Lifetime D × Status
  unfolding set_error
  start_nodes [] l = (l, Status.ok)
  start_nodes (id ∷ ids) l =
      let (r, status) = classes.on_start id l.runner in
      and_then (called (starts id) (put_runner (start_failed id status r) l), status)
        (λ l'. start_nodes ids l')

module _ {D : Type 0} where
  -- The edges, the inputs, the slots and the outputs.
  unfoldable pub build_tables : GraphConfig → Lifetime D → Lifetime D
  unfolding build_edges build_inputs build_slots build_outputs
  build_tables config l =
      let (edges, routes) = build_edges config.edges l.runner.edges l.runner.routes in
      let (inputs, open_inputs) =
        build_inputs config.inputs l.runner.graph_inputs l.runner.open_inputs in
      record l {
        runner = record l.runner {
          edges = edges;
          routes = routes;
          graph_inputs = inputs;
          open_inputs = open_inputs;
        };
        source_slots = build_slots config.source_slots [];
        graph_outputs = build_outputs config.outputs l.graph_outputs;
      }

  abbrev pub run_now : Lifetime D → Lifetime D
  run_now l = record l { runner = record l.runner { running = true } }

  -- `cancelled_ = false; last_error_ = Status::Ok();`.
  abbrev pub reset_error : Lifetime D → Lifetime D
  reset_error l = record l {
    runner = record l.runner { cancelled = false; last_error = Status.ok };
  }

  -- `Start` from `running_ = true` on.
  abbrev pub run_nodes : NodeClasses D → Lifetime D → Lifetime D × Status
  run_nodes classes l = start_nodes classes l.lifecycle_order (run_now l)

module _ {D : Type 0} (payload : ConfigValue → D) where
  -- `PacketFromConfig`.
  abbrev pub packet_from_config : ConfigValue → Packet D
  packet_from_config value = make (payload value) (from_microseconds (pos 0))

  -- A side packet that has been set before the start stays.
  abbrev pub set_missing :
      String → ConfigValue → List (String × Packet D) → List (String × Packet D) × Status
  set_missing name value packets =
      if contains name packets
      then (packets, Status.ok)
      else set_side_packet packets name (packet_from_config value)

  unfoldable pub set_side_packets : Object → Lifetime D → Lifetime D × Status
  set_side_packets [] l = (l, Status.ok)
  set_side_packets ((name, value) ∷ more) l =
      let (packets, status) = set_missing name value l.side_packets in
      let rest = set_side_packets more (record l { side_packets = packets }) in
      if is_ok status then rest else (l, status)

  -- The initial packets of the back edges, from the edge of that number on. The answer is not
  -- looked at, but the call may sleep.
  unfoldable pub enqueue_initial : List EdgeConfig → ℕ → GraphRunner D → ℤ → Called D
  enqueue_initial [] i r now = record { runner = r; answer = some Status.ok }
  enqueue_initial (c ∷ cs) i r now =
      if c.back_edge
      then (let sent = enqueue_edge r i (packet_from_config c.initial_packet) now in
          elim sent.answer [
            | none ↦ sent
            | some status ↦ enqueue_initial cs (suc i) sent.runner now
          ])
      else enqueue_initial cs (suc i) r now

  -- `Start` from the tables on, from the nodes on, and from the control executor on.
  abbrev pub from_tables : NodeClasses D → GraphConfig → Lifetime D → Lifetime D × Status
  from_tables classes config l =
      and_then (set_side_packets config.side_packets (build_tables config l)) (run_nodes classes)

  abbrev pub from_nodes : NodeClasses D → GraphConfig → Lifetime D → Lifetime D × Status
  from_nodes classes config l =
      and_then (create_nodes classes config.nodes l) (from_tables classes config)

  abbrev pub from_control : NodeClasses D → GraphConfig → Lifetime D → Lifetime D × Status
  from_control classes config l = and_then (start_control l) (from_nodes classes config)

  unfoldable pub begin_start : NodeClasses D → GraphConfig → Lifetime D → Lifetime D × Status
  unfolding start_executors start_control create_nodes build_tables set_side_packets start_nodes
  begin_start classes config l =
      and_then (start_executors config.executors (reset_error l)) (from_control classes config)

  abbrev pub end_start : GraphConfig → Lifetime D × Status → ℤ → Changed D
  end_start config (l, status) now =
      if is_ok status
      then (let sent = enqueue_initial config.edges 0 l.runner now in
          record { lifetime = put_runner sent.runner l; answer = sent.answer })
      else stop_with l status

  unfoldable pub start : Option Registry → NodeClasses D → GraphConfig → Lifetime D → ℤ → Changed D
  unfolding begin_start enqueue_initial stop_with
  start registry classes config l now =
      if l.runner.running
      then record {
        lifetime = l;
        answer = some (Status.already_exists "graph runner is already running");
      }
      else if l.runner.stopping
      then record {
        lifetime = l;
        answer = some (Status.failed_precondition "graph runner is stopping");
      }
      else if not (is_ok (to_status (validate registry config)))
      then record { lifetime = l; answer = some (to_status (validate registry config)) }
      else end_start config (begin_start classes config l) now
