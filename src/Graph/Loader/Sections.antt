-- ===== src/Graph/Loader/Sections.antt =====
-- The sections of a YAML graph: `ParseGraphPorts` and the parts of `ParseRoot` of
-- src/core/graph_config.cpp on flow control, executors, nodes, source slots and edges.
use rk_avp.Prelude.{
  suc, Bool, true, false, ◌&&◌, ◌||◌, not, List, [], ◌∷◌, Option, none, some, String, ℤ, pos, ltb_ℤ,
  ◌==◌, if◌then◌else◌, ◌=?◌, string_keys,
}
use rk_avp.Prelude.Maps.{find, emplace}
use rk_avp.Status.{Status, ◌+s◌}
use rk_avp.Status
use rk_avp.ConfigValue.{ConfigValue, Object, null, object, to_object}
use rk_avp.Node.Contract.{InputPolicy, any_input}
use rk_avp.Graph.{
  QueueConfig, FlowControlConfig, ExecutorConfig, NodeConfig, EdgeConfig, GraphPortConfig,
  SourceSlotConfig,
}
use rk_avp.Graph.Loader.{
  as_string, as_size, as_int, as_bool, field, Yaml, Parsed, gives, returns, throws, escapes,
  exhausted, ◌>>=◌, ◌>>◌, return_if, or_default, parse_queue, parse_input_policy, split_endpoint,
}
use rk_avp.Graph.Loader.Values.{parse_value}

abbrev pub default_executor : ExecutorConfig
default_executor = record { name = "default"; threads = 1; queue_capacity = 256; priority = pos 0 }

-- What `AsObject` gives, after the test of the type.
abbrev pub object_or : ConfigValue → String → Parsed Object
object_or (object fs) message = gives (to_object fs)
object_or v message = returns (Status.invalid message)

abbrev pub or_one : List ExecutorConfig → List ExecutorConfig
or_one [] = default_executor ∷ []
or_one (e ∷ es) = e ∷ es

-- An alias of a subgraph's port stands for the port inside.
abbrev pub resolve : List (String × String) → String → String
resolve aliases name = elim (find name aliases) [ none ↦ name | some target ↦ target ]

-- The name and the value of a node's input policy.
abbrev pub named_policy : String → Parsed InputPolicy → Parsed (Bool × InputPolicy)
named_policy id (gives p) = gives (true, p)
named_policy id (returns status) =
    returns (Status.invalid ("node " +s id +s ": " +s status.message))
named_policy id (throws e) = throws e
named_policy id (escapes e) = escapes e
named_policy id exhausted = exhausted

module _ (y : Yaml) where
  open y use {Node, is_map, is_sequence, is_scalar, items, entries, join, normal, depth}

  -- A loop that appends what each child gives.
  abbrev pub each : {A B : Type 0} → (A → Parsed B) → List A → Parsed (List B)
  each f [] = gives []
  each f (a ∷ rest_of) = f a >>= λ b. each f rest_of >>= λ bs. gives (b ∷ bs)

  abbrev pub value_at : Node → Parsed ConfigValue
  value_at n = parse_value y (suc (depth n)) n

  abbrev pub needs : Option Node → String → Parsed Node
  needs none message = returns (Status.invalid message)
  needs (some n) message = gives n

  unfoldable pub parse_flow : ℤ → Option Node → FlowControlConfig → Parsed FlowControlConfig
  parse_flow version none flow = gives flow
  parse_flow version (some n) flow = do
    return_if (ltb_ℤ version (pos 2)) "graph.flow_control requires version: 2"
    return_if (not (is_map n)) "graph.flow_control must be a map"
    input ← field y n "input_queue"
    input_queue ← parse_queue y input flow.input_queue "graph.flow_control.input_queue"
    edge ← field y n "edge_queue"
    edge_queue ← parse_queue y edge flow.edge_queue "graph.flow_control.edge_queue"
    observer ← field y n "observer_queue"
    observer_queue ← parse_queue y observer flow.observer_queue "graph.flow_control.observer_queue"
    observe ← or_default y n "observe_timestamp_bounds" (as_bool y) false
    gives (record {
      input_queue = input_queue;
      edge_queue = edge_queue;
      observer_queue = observer_queue;
      observe_timestamp_bounds = observe;
    })

  unfoldable pub parse_executor : Node → Parsed ExecutorConfig
  parse_executor n = do
    name ← or_default y n "name" (as_string y) ""
    threads ← or_default y n "threads" (as_size y) 1
    queue_capacity ← or_default y n "queue_capacity" (as_size y) 256
    priority ← or_default y n "priority" (as_int y) (pos 0)
    return_if ((name =? "") || (threads == 0) || (queue_capacity == 0))
        "executor name, threads and queue_capacity must be valid"
    gives (record {
      name = name;
      threads = threads;
      queue_capacity = queue_capacity;
      priority = priority;
    })

  unfoldable pub parse_executors : Option Node → Parsed (List ExecutorConfig)
  parse_executors none = gives (default_executor ∷ [])
  parse_executors (some n) = do
    return_if (not (is_sequence n)) "graph.executors must be a sequence"
    es ← each parse_executor (items n)
    gives (or_one es)

  -- `has_input_policy` and `input_policy`.
  abbrev pub node_policy : String → Option Node → Parsed (Bool × InputPolicy)
  node_policy id none = gives (false, any_input)
  node_policy id (some n) = as_string y n >>= λ s. named_policy id (parse_input_policy s)

  abbrev pub options_by : List (Node × Node) → Object → Parsed Object
  options_by [] os = gives os
  options_by (e ∷ es) os =
      (as_string y) (e.0) >>= λ k. value_at (e.1) >>= λ v. options_by es ((emplace k v os).0)

  abbrev pub options_of : String → Option Node → Parsed Object
  options_of id none = gives []
  options_of id (some n) =
      return_if (not (is_map n)) ("node options must be a map: " +s id) >> options_by (entries n) []

  unfoldable pub parse_node : Node → Parsed NodeConfig
  parse_node n = do
    id_node ← field y n "id"
    id_found ← needs id_node "each node requires id and type"
    type_node ← field y n "type"
    type_found ← needs type_node "each node requires id and type"
    id ← (as_string y) id_found
    type ← (as_string y) type_found
    executor ← or_default y n "executor" (as_string y) "default"
    policy_node ← field y n "input_policy"
    policy ← node_policy id policy_node
    trigger_port ← or_default y n "trigger_port" (as_string y) ""
    options_node ← field y n "options"
    options ← options_of id options_node
    gives (record {
      id = id;
      type = type;
      executor = executor;
      options = options;
      has_input_policy = policy.0;
      input_policy = policy.1;
      trigger_port = trigger_port;
    })

  abbrev pub endpoint_node : Node → Parsed (Option Node)
  endpoint_node n = if is_map n then field y n "to" else gives (some n)

  abbrev pub scalar_endpoint : Option Node → String → Parsed Node
  scalar_endpoint none name =
      returns (Status.invalid (name +s " endpoint must be node.port or {to, queue}"))
  scalar_endpoint (some n) name =
      if is_scalar n
      then gives n
      else returns (Status.invalid (name +s " endpoint must be node.port or {to, queue}"))

  abbrev pub port_queue : Bool → Node → String → QueueConfig → Parsed QueueConfig
  port_queue allow_queue n name defaults =
      if allow_queue && is_map n
      then (field y n "queue" >>= λ q. parse_queue y q defaults (name +s " queue"))
      else gives defaults

  unfoldable pub parse_graph_port :
      String → Bool → QueueConfig → Node × Node → Parsed GraphPortConfig
  parse_graph_port name allow_queue defaults e = do
    port_name ← (as_string y) (e.0)
    found ← endpoint_node (e.1)
    scalar_node ← scalar_endpoint found name
    text ← (as_string y) scalar_node
    ends ← split_endpoint text
    queue ← port_queue allow_queue (e.1) name defaults
    gives (record { name = port_name; node = ends.0; port = ends.1; queue = queue })

  unfoldable pub parse_graph_ports :
      Option Node → String → Bool → QueueConfig → Parsed (List GraphPortConfig)
  parse_graph_ports none name allow_queue defaults = gives []
  parse_graph_ports (some n) name allow_queue defaults =
      return_if (not (is_map n)) (name +s " must be a map of name: node.port")
      >> each (parse_graph_port name allow_queue defaults) (entries n)

  abbrev pub template_of : String → Option Node → Parsed String
  template_of base none = gives ""
  template_of base (some n) = (as_string y) n >>= λ s. gives (normal (join base s))

  abbrev pub slot_fields : String → String → Node → Parsed SourceSlotConfig
  slot_fields base name n =
      if is_scalar n
      then ((as_string y) n >>= λ stream. gives (record {
        name = name;
        input_stream = stream;
        subgraph_template = "";
        output_stream = "";
      }))
      else if is_map n
      then (or_default y n "input" (as_string y) "" >>= λ input. field y n "template" >>= λ t.
          template_of base t >>= λ template. or_default y n "output" (as_string y) "" >>= λ output.
          gives (record {
            name = name;
            input_stream = input;
            subgraph_template = template;
            output_stream = output;
          }))
      else returns (Status.invalid "source slot must be input_stream or {input, template, output}")

  unfoldable pub parse_slot : String → Node × Node → Parsed SourceSlotConfig
  parse_slot base e = do
    name ← (as_string y) (e.0)
    slot ← slot_fields base name (e.1)
    return_if ((slot.name =? "") || (slot.input_stream =? ""))
        "source slot name and input stream are required"
    return_if (not (slot.subgraph_template =? "") && (slot.output_stream =? ""))
        "source slot with template requires output stream"
    gives slot

  unfoldable pub parse_slots : String → Option Node → Parsed (List SourceSlotConfig)
  parse_slots base none = gives []
  parse_slots base (some n) =
      return_if (not (is_map n)) "graph.source_slots must be a map"
      >> each (parse_slot base) (entries n)

  unfoldable pub parse_side_packets : Option Node → Parsed Object
  parse_side_packets none = gives []
  parse_side_packets (some n) = value_at n >>= λ v. object_or v "graph.side_packets must be a map"

  abbrev pub initial_of : Option Node → Parsed ConfigValue
  initial_of none = gives null
  initial_of (some n) = value_at n

  unfoldable pub parse_edge :
      List (String × String) → List (String × String) → QueueConfig → Node → Parsed EdgeConfig
  parse_edge inputs outputs defaults n = do
    from_node ← field y n "from"
    from_found ← needs from_node "each edge requires from and to"
    to_node ← field y n "to"
    to_found ← needs to_node "each edge requires from and to"
    from ← (as_string y) from_found
    to ← (as_string y) to_found
    source ← split_endpoint (resolve outputs from)
    target ← split_endpoint (resolve inputs to)
    queue_node ← field y n "queue"
    queue ← parse_queue y queue_node defaults "edge queue"
    back_edge ← or_default y n "back_edge" (as_bool y) false
    initial_node ← field y n "initial_packet"
    initial_packet ← initial_of initial_node
    gives (record {
      from_node = source.0;
      from_port = source.1;
      to_node = target.0;
      to_port = target.1;
      queue = queue;
      back_edge = back_edge;
      initial_packet = initial_packet;
    })

  unfoldable pub parse_edges :
      List (String × String)
      → List (String × String)
      → QueueConfig
      → Option Node
      → Parsed (List EdgeConfig)
  parse_edges inputs outputs defaults none = gives []
  parse_edges inputs outputs defaults (some n) =
      return_if (not (is_sequence n)) "graph.edges must be a sequence"
      >> each (parse_edge inputs outputs defaults) (items n)
