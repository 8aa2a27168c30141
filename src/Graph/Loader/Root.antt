-- ===== src/Graph/Loader/Root.antt =====
-- `ParseSubgraphs`, `ParseRoot`, `LoadFile` and `LoadString` of src/core/graph_config.cpp. A file that
-- includes files recurses on fuel, one more than the number of files.
use rk_avp.Prelude.{
  ℕ, zero, suc, true, false, ◌||◌, not, List, [], ◌∷◌, ◌++◌, Option, none, some, String, ℤ, pos,
  ltb_ℤ, if◌then◌else◌, string_keys,
}
use rk_avp.Prelude.Maps.{emplace}
use rk_avp.Prelude.Names.{member}
use rk_avp.Status.{Status, Result, pass, fail, ◌+s◌}
use rk_avp.Status
use rk_avp.Queue.{block, drop_oldest}
use rk_avp.ConfigValue.{Object}
use rk_avp.Graph.{GraphConfig, FlowControlConfig, GraphPortConfig}
use rk_avp.Graph.Merge.{merge_subgraph}
use rk_avp.Graph.Loader.{
  as_string, as_int, field, load_file, Yaml, Parsed, gives, returns, throws, escapes, exhausted,
  Thrown, answers, raises, ◌>>=◌, ◌>>◌, return_if, or_default,
}
use rk_avp.Graph.Loader.Sections.{
  object_or, value_at, needs, parse_flow, parse_executors, parse_node, each, parse_graph_ports,
  parse_slots, parse_side_packets, parse_edges,
}

abbrev pub default_flow : FlowControlConfig
default_flow = record {
  input_queue = record { capacity = 8; policy = block };
  edge_queue = record { capacity = 2; policy = drop_oldest };
  observer_queue = record { capacity = 64; policy = drop_oldest };
  observe_timestamp_bounds = false;
}

abbrev pub Aliases : Type 0
Aliases = List (String × String)

-- What `ParseSubgraphs` fills.
pub record Merged : Type 0 where
  pub config : GraphConfig
  pub input_aliases : Aliases
  pub output_aliases : Aliases

abbrev pub add_aliases : String → List GraphPortConfig → Aliases → Aliases
add_aliases id [] aliases = aliases
add_aliases id (p ∷ ps) aliases =
    add_aliases id ps
      ((emplace (id +s "." +s p.name) (id +s "." +s p.node +s "." +s p.port) aliases).0)

-- An exception of `YAML::LoadFile` is caught where a subgraph is loaded.
abbrev pub caught {ℓ} : {A : Type ℓ} → Parsed A → Parsed A
caught (throws e) = returns (Status.invalid ("subgraph YAML error: " +s e))
caught m = m

abbrev pub within {ℓ} : {A : Type ℓ} → String → Parsed A → Parsed A
within id (returns s) = returns (Status.invalid ("subgraph " +s id +s ": " +s s.message))
within id m = m

abbrev pub of_result {ℓ} : {A : Type ℓ} → Result A → Parsed A
of_result (pass a) = gives a
of_result (fail s) = returns s

-- What the caller of the loader sees, an exception included.
abbrev pub to_result {ℓ} : {A : Type ℓ} → Parsed A → Option (Thrown (Result A))
to_result (gives a) = some (answers (pass a))
to_result (returns s) = some (answers (fail s))
to_result (throws e) = some (answers (fail (Status.invalid ("YAML error: " +s e))))
to_result (escapes e) = some (raises e)
to_result exhausted = none

-- A call of `weakly_canonical`, whose exception is caught nowhere.
abbrev pub uncaught {ℓ} : {A : Type ℓ} → Thrown A → Parsed A
uncaught (answers a) = gives a
uncaught (raises e) = escapes e

module _ (y : Yaml) where
  open y use {Node, is_map, is_sequence, items, join, parent_path, canonical}

  -- `ParseRoot` of a file, from its directory, with the files that are being loaded.
  abbrev pub Parser : Type 0
  Parser = String → Node → List String → Parsed GraphConfig

  abbrev pub overrides_of : Option Node → Parsed Object
  overrides_of none = gives []
  overrides_of (some n) = value_at y n >>= λ v. object_or v "subgraph options must be a map"

  abbrev pub parse_subgraph : Parser → String → List String → Merged → Node → Parsed Merged
  parse_subgraph parse base loading m n = do
    id_node ← field y n "id"
    id_found ← needs y id_node "subgraph requires id and file"
    file_node ← field y n "file"
    file_found ← needs y file_node "subgraph requires id and file"
    id ← (as_string y) id_found
    file ← (as_string y) file_found
    path ← uncaught (canonical (join base file))
    return_if (member path loading) ("recursive subgraph include: " +s path)
    root ← caught (load_file y path)
    child ← within id (parse (parent_path (join base file)) root (path ∷ loading))
    options ← field y n "options"
    overrides ← overrides_of options
    config ← of_result (merge_subgraph m.config child id overrides)
    gives (record {
      config = config;
      input_aliases = add_aliases id child.inputs m.input_aliases;
      output_aliases = add_aliases id child.outputs m.output_aliases;
    })

  abbrev pub subgraphs_by : Parser → String → List String → List Node → Merged → Parsed Merged
  subgraphs_by parse base loading [] m = gives m
  subgraphs_by parse base loading (n ∷ ns) m =
      parse_subgraph parse base loading m n >>= λ m'. subgraphs_by parse base loading ns m'

  abbrev pub parse_subgraphs :
      Parser → String → List String → Option Node → GraphConfig → Parsed Merged
  parse_subgraphs parse base loading none config =
      gives (record { config = config; input_aliases = []; output_aliases = [] })
  parse_subgraphs parse base loading (some n) config =
      return_if (not (is_sequence n)) "graph.subgraphs must be a sequence"
      >> subgraphs_by parse base loading (items n)
          (record { config = config; input_aliases = []; output_aliases = [] })

  abbrev pub sequence_of : Option Node → Parsed (List Node)
  sequence_of none = returns (Status.invalid "graph.nodes must be a sequence")
  sequence_of (some n) =
      if is_sequence n
      then gives (items n)
      else returns (Status.invalid "graph.nodes must be a sequence")

  abbrev pub graph_map : Option Node → Parsed Node
  graph_map none = returns (Status.invalid "missing graph map")
  graph_map (some n) = if is_map n then gives n else returns (Status.invalid "missing graph map")

  -- `ParseRoot` up to the subgraphs, with the graph's node; `text_of` spells a version.
  unfoldable pub parse_own : (ℤ → String) → String → Node → Parsed (GraphConfig × Node)
  parse_own text_of base root = do
    return_if (not (is_map root)) "YAML root must be a map"
    version ← or_default y root "version" (as_int y) (pos 1)
    return_if (ltb_ℤ version (pos 1) || ltb_ℤ (pos 2) version)
        ("unsupported graph version: " +s text_of version)
    graph_node ← field y root "graph"
    graph ← graph_map graph_node
    name ← or_default y graph "name" (as_string y) "unnamed"
    flow_node ← field y graph "flow_control"
    flow ← parse_flow y version flow_node default_flow
    executor_node ← field y graph "executors"
    executors ← parse_executors y executor_node
    node_list ← field y graph "nodes"
    node_items ← sequence_of node_list
    nodes ← each y (parse_node y) node_items
    input_node ← field y graph "inputs"
    inputs ← parse_graph_ports y input_node "graph.inputs" true flow.input_queue
    output_node ← field y graph "outputs"
    outputs ← parse_graph_ports y output_node "graph.outputs" false flow.observer_queue
    slot_node ← field y graph "source_slots"
    source_slots ← parse_slots y base slot_node
    side_node ← field y graph "side_packets"
    side_packets ← parse_side_packets y side_node
    gives (
      record {
        version = version;
        name = name;
        executors = executors;
        nodes = nodes;
        edges = [];
        inputs = inputs;
        outputs = outputs;
        source_slots = source_slots;
        side_packets = side_packets;
        flow_control = flow;
      },
      graph,
    )

  unfoldable pub parse_root : (ℤ → String) → ℕ → String → Node → List String → Parsed GraphConfig
  unfolding parse_own
  parse_root text_of zero base root loading = exhausted
  parse_root text_of (suc fuel) base root loading = do
    own ← parse_own text_of base root
    subgraph_node ← field y (own.1) "subgraphs"
    merged ← parse_subgraphs (parse_root text_of fuel) base loading subgraph_node (own.0)
    edge_node ← field y (own.1) "edges"
    edges ←
        parse_edges y merged.input_aliases merged.output_aliases
          merged.config.flow_control.edge_queue edge_node
    gives (record merged.config { edges = merged.config.edges ++ edges })

  unfoldable pub load_graph_file : (ℤ → String) → ℕ → String → Parsed GraphConfig
  load_graph_file text_of fuel path = do
    canonical_path ← uncaught (canonical path)
    root ← load_file y path
    parse_root text_of fuel (parent_path path) root (canonical_path ∷ [])

  -- `root` is what `YAML::Load` makes of the text, and `here` the current directory.
  unfoldable pub load_graph_string : (ℤ → String) → ℕ → Parsed Node → String → Parsed GraphConfig
  load_graph_string text_of fuel root here = root >>= λ n. parse_root text_of fuel here n []
