-- ===== src/Tests/Graphs.antt =====
-- Small graph configurations for src/core/graph.cpp.
use rk_avp.Prelude.{
  ◌≡◌, ◌≢◌, ◌⊎◌, refl, true, false, List, [], ◌∷◌, Option, none, some, String, pos, string_keys,
  arith,
}
use rk_avp.Prelude.Names.{member, remove}
use rk_avp.Prelude.Maps.{find, assign, contains, emplace}
use rk_avp.Status.{pass}
use rk_avp.Queue.{drop_oldest}
use rk_avp.MediaCaps.{
  any_caps, compatible_with, kinds_clash, formats_clash, sizes_clash, has_memory, share_memory,
}
use rk_avp.ConfigValue.{null}
use rk_avp.Node.Contract.{PortSpec, any_input, find_port, validate_options, check_required}
use rk_avp.Graph.{GraphConfig, NodeConfig, EdgeConfig, QueueConfig}
use rk_avp.Graph.Acyclic.{Reaches, find_cycle, visit, visit_roots, visit_each, leave, adjacent}
use rk_avp.Graph.Acyclic.Fuel.{find_cycle_decides}
use rk_avp.Graph.Validation.{
  Registry, validate, add_executors, add_nodes, check_node, check_edges, check_edge, check_inputs,
  check_slots, validate_ports, validate_acyclic,
}
use rk_avp.Graph.Validation.WellFormed.{WellFormed, validate-WellFormed}

abbrev queue : QueueConfig
queue = record { capacity = 8; policy = drop_oldest }

abbrev pub link : String → String → EdgeConfig
link a b = record {
  from_node = a;
  from_port = "out";
  to_node = b;
  to_port = "in";
  queue = queue;
  back_edge = false;
  initial_packet = null;
}

abbrev port : String → PortSpec
port name = record { name = name; caps = any_caps; required = true }

abbrev pub types : Registry
types =
    (
      "PassThrough",
      record {
        inputs = port "in" ∷ [];
        outputs = port "out" ∷ [];
        required_options = [];
        input_policy = any_input;
        trigger_port = "";
      },
    )
    ∷ []

abbrev node : String → NodeConfig
node id = record {
  id = id;
  type = "PassThrough";
  executor = "default";
  options = [];
  has_input_policy = false;
  input_policy = any_input;
  trigger_port = "";
}

abbrev pub config : List EdgeConfig → GraphConfig
config edges = record {
  version = pos 1;
  name = "chain";
  executors = record { name = "default"; threads = 2; queue_capacity = 64; priority = pos 0 } ∷ [];
  nodes = node "a" ∷ node "b" ∷ [];
  edges = edges;
  inputs = record { name = "camera"; node = "a"; port = "in"; queue = queue } ∷ [];
  outputs = record { name = "screen"; node = "b"; port = "out"; queue = queue } ∷ [];
  source_slots = [];
  side_packets = [];
  flow_control = record {
    input_queue = queue;
    edge_queue = queue;
    observer_queue = queue;
    observe_timestamp_bounds = false;
  };
}

chain_passes : validate (some types) (config (link "a" "b" ∷ [])) ≡ pass tt
unfolding validate add_executors add_nodes check_edges check_inputs check_slots validate_ports
    validate_acyclic find_cycle find contains emplace assign find_port validate_options
    check_required compatible_with kinds_clash formats_clash sizes_clash has_memory share_memory
    visit visit_roots visit_each leave check_node check_edge adjacent member remove
chain_passes = refl

find_cycle_decides_example :
    (r : Option String) × (find_cycle 3 (link "a" "b" ∷ link "b" "a" ∷ []) ("a" ∷ "b" ∷ [])
      ≡ some r)
    × (((r ≡ none)
          × ((n : String)
              → member n ("a" ∷ "b" ∷ []) ≡ true
              → ¬ Reaches (link "a" "b" ∷ link "b" "a" ∷ []) n n))
        ⊎ ((r ≢ none) × ((v : String) × Reaches (link "a" "b" ∷ link "b" "a" ∷ []) v v)))
unfolding adjacent member
find_cycle_decides_example =
    find_cycle_decides (link "a" "b" ∷ link "b" "a" ∷ []) ("a" ∷ "b" ∷ []) (λ n. ground arith)

validate-WellFormed_example : WellFormed types (config (link "a" "b" ∷ []))
validate-WellFormed_example = validate-WellFormed types (config (link "a" "b" ∷ [])) chain_passes
