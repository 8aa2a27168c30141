-- ===== src/Graph/Loader/Own.antt =====
-- A graph's own sections, without its subgraphs and edges, of src/core/graph_config.cpp.
use rk_avp.Prelude.{
  ◌≡◌, true, false, ◌||◌, List, [], All, Option, none, some, String, ℤ, pos, ltb_ℤ, ◌≤ℤ◌,
  string_keys, is_empty, arith,
}
use rk_avp.ConfigValue.{Object}
use rk_avp.Graph.{
  GraphConfig, FlowControlConfig, GraphPortConfig, ExecutorConfig, NodeConfig, SourceSlotConfig,
}
use rk_avp.Graph.Loader.{Yaml, AreTrees, Parsed, gives, ◌>>=◌}
use rk_avp.Graph.Loader.Ensures.{Ensures, Ends, ensured, returned, Ensures-bind, Ends-of}
use rk_avp.Graph.Loader.Wellformed.{loader_rules, Ensures-each}
use rk_avp.Graph.Loader.Checked.{
  IsExecutor, IsPort, IsEdge, IsSlot, IsFlow, parse_flow-IsFlow, parse_executors-IsExecutor,
  Ends-parse_node, parse_graph_ports-IsPort, parse_slots-IsSlot, Ends-parse_side_packets,
}
use rk_avp.Graph.Loader.Sections.{
  parse_flow, parse_executors, parse_node, parse_graph_ports, parse_slots, needs, each,
}
use rk_avp.Graph.Loader.Root.{default_flow, sequence_of, graph_map, parse_own}

-- A configuration as the loader gives it.
abbrev pub IsLoaded : GraphConfig → Type 0
IsLoaded c =
    (pos 1 ≤ℤ c.version)
    × (c.version ≤ℤ pos 2)
    × (is_empty c.executors ≡ false)
    × All IsExecutor c.executors
    × All IsEdge c.edges
    × All IsPort c.inputs
    × All IsPort c.outputs
    × All IsSlot c.source_slots
    × IsFlow c.flow_control

abbrev AreExecutors : List ExecutorConfig → Type 0
AreExecutors es = All IsExecutor es × (is_empty es ≡ false)

abbrev pub OwnLoaded : {N : Type 0} → GraphConfig × N → Type 0
OwnLoaded r = IsLoaded (r.0)

module _ (y : Yaml) (trees : AreTrees y) where
  pub Ends-needs : (o : Option y.Node) (message : String) → Ends (needs y o message)
  Ends-needs none message = returned _
  Ends-needs (some n) message = ensured n tt

  Ends-graph_map : (o : Option y.Node) → Ends (graph_map y o)
  Ends-graph_map none = returned _
  Ends-graph_map (some n) = search loader_rules

  Ends-sequence_of : (o : Option y.Node) → Ends (sequence_of y o)
  Ends-sequence_of none = returned _
  Ends-sequence_of (some n) = search loader_rules

  Ends-nodes : (ns : List y.Node) → Ends (each y (parse_node y) ns)
  Ends-nodes ns =
      Ends-of _ (Ensures-each y (λ _. Unit {0}) (parse_node y) ns (Ends-parse_node y trees))

  -- The sections, and what is made of them.
  module _ {B : Type 0} {P : B → Type 0} where
    Ensures-flow :
        (v : ℤ) (o : Option y.Node) (f : FlowControlConfig → Parsed B)
        → ((flow : FlowControlConfig) → IsFlow flow → Ensures P (f flow))
        → Ensures P (parse_flow y v o default_flow >>= f)
    Ensures-flow v o f k =
        Ensures-bind IsFlow _ f
          (parse_flow-IsFlow y trees v o default_flow (omega arith, omega arith, omega arith)) k

    Ensures-executors :
        (o : Option y.Node) (f : List ExecutorConfig → Parsed B)
        → ((es : List ExecutorConfig) → AreExecutors es → Ensures P (f es))
        → Ensures P (parse_executors y o >>= f)
    Ensures-executors o f k = Ensures-bind AreExecutors _ f (parse_executors-IsExecutor y trees o) k

    Ensures-inputs :
        (flow : FlowControlConfig) (o : Option y.Node) (f : List GraphPortConfig → Parsed B)
        → IsFlow flow
        → ((ps : List GraphPortConfig) → All IsPort ps → Ensures P (f ps))
        → Ensures P (parse_graph_ports y o "graph.inputs" true flow.input_queue >>= f)
    Ensures-inputs flow o f h k =
        Ensures-bind (All IsPort) _ f
          (parse_graph_ports-IsPort y trees o "graph.inputs" true flow.input_queue h.0) k

    Ensures-outputs :
        (flow : FlowControlConfig) (o : Option y.Node) (f : List GraphPortConfig → Parsed B)
        → IsFlow flow
        → ((ps : List GraphPortConfig) → All IsPort ps → Ensures P (f ps))
        → Ensures P (parse_graph_ports y o "graph.outputs" false flow.observer_queue >>= f)
    Ensures-outputs flow o f h k =
        Ensures-bind (All IsPort) _ f
          (parse_graph_ports-IsPort y trees o "graph.outputs" false flow.observer_queue h.2) k

    Ensures-slots :
        (base : String) (o : Option y.Node) (f : List SourceSlotConfig → Parsed B)
        → ((ss : List SourceSlotConfig) → All IsSlot ss → Ensures P (f ss))
        → Ensures P (parse_slots y base o >>= f)
    Ensures-slots base o f k = Ensures-bind (All IsSlot) _ f (parse_slots-IsSlot y trees base o) k

  IsLoaded-valid :
      (version : ℤ) (name : String) (executors : List ExecutorConfig) (nodes : List NodeConfig)
      (inputs outputs : List GraphPortConfig) (slots : List SourceSlotConfig) (side : Object)
      (flow : FlowControlConfig) (n : y.Node)
      → (ltb_ℤ version (pos 1) || ltb_ℤ (pos 2) version) ≡ false
      → AreExecutors executors
      → All IsPort inputs
      → All IsPort outputs
      → All IsSlot slots
      → IsFlow flow
      → Ensures OwnLoaded (
          gives (
            record {
              version = version;
              name = name;
              executors = executors;
              nodes = nodes;
              edges = [];
              inputs = inputs;
              outputs = outputs;
              source_slots = slots;
              side_packets = side;
              flow_control = flow;
            },
            n,
          ))
  IsLoaded-valid version name executors nodes inputs outputs slots side flow n v e i o s f =
      ensured _ (ground arith, ground arith, e.1, e.0, tt, i, o, s, f)

  pub parse_own-IsLoaded :
      (text_of : ℤ → String) (base : String) (root : y.Node)
      → Ensures OwnLoaded (parse_own y text_of base root)
  unfolding parse_own
  parse_own-IsLoaded text_of base root =
      search
        (
          loader_rules, Ends-graph_map, Ends-sequence_of, Ends-nodes, Ensures-flow,
          Ensures-executors, Ensures-inputs, Ensures-outputs, Ensures-slots,
          Ends-parse_side_packets, IsLoaded-valid,
        )
        depth 40 fits 4000
