-- ===== src/Tests/Loaders.antt =====
-- Runs of the graph loader.
use rk_avp.Prelude.{
  ℕ, ◌<◌, ◌+◌, refl, ◌++◌, map, length, get_elem?, ◌≡◌, ◌≢◌, ◌↔◌, Bool, true, false, List, [], ◌∷◌,
  All, Option, none, some, String, ℤ, pos, if◌then◌else◌, ◌=?◌, eq_iff, string_keys, arith,
}
use rk_avp.Prelude.Maps.{find, or_else}
use rk_avp.Node.Contract.{sync}
use rk_avp.Prelude.Names.{member}
use rk_avp.Status.{◌+s◌, pass}
use rk_avp.Queue.{block}
use rk_avp.ConfigValue.{ConfigValue, Object}
use rk_avp.Graph.{GraphConfig, NodeConfig, QueueConfig}
use rk_avp.Graph.Merge.{merge_node, merge_subgraph}
use rk_avp.Graph.Merge.Overrides.{AreDistinct, merge_subgraph_lem}
use rk_avp.Graph.Loader.{Yaml, AreTrees, Thrown, answers, raises, gives, exhausted, split_endpoint}
use rk_avp.Graph.Loader.Endpoints.{IsSplit, split_endpoint_lem}
use rk_avp.Graph.Loader.Root.{load_graph_file}
use rk_avp.Graph.Loader.Own.{IsLoaded}
use rk_avp.Graph.Loader.Loaded.{AreFiles, load_graph_file-IsLoaded}

-- A graph with one node, `a.yaml`, which includes `b.yaml`, which has one too.
data Doc : Type 0 where
  outer outer_graph subgraphs subgraph inner inner_graph nodes node : Doc
  word : String → Doc

abbrev doc_lookup : Doc → String → Option Doc
doc_lookup outer key = if key =? "graph" then some outer_graph else none
doc_lookup inner key = if key =? "graph" then some inner_graph else none
doc_lookup outer_graph key =
    if key =? "nodes" then some nodes else if key =? "subgraphs" then some subgraphs else none
doc_lookup inner_graph key = if key =? "nodes" then some nodes else none
doc_lookup subgraph key =
    if key =? "id" then some (word "part") else if key =? "file" then some (word "b.yaml") else none
doc_lookup node key =
    if key =? "id"
    then some (word "camera")
    else if key =? "type"
    then some (word "Camera")
    else none
doc_lookup _ key = none

abbrev doc_is_map : Doc → Bool
doc_is_map outer = true
doc_is_map inner = true
doc_is_map outer_graph = true
doc_is_map inner_graph = true
doc_is_map subgraph = true
doc_is_map node = true
doc_is_map _ = false

abbrev doc_is_sequence : Doc → Bool
doc_is_sequence nodes = true
doc_is_sequence subgraphs = true
doc_is_sequence _ = false

abbrev doc_items : Doc → List Doc
doc_items nodes = node ∷ []
doc_items subgraphs = subgraph ∷ []
doc_items _ = []

abbrev doc_text : Doc → Thrown String
doc_text (word s) = answers s
doc_text _ = raises "bad conversion"

abbrev doc_depth : Doc → ℕ
doc_depth nodes = 1
doc_depth subgraphs = 1
doc_depth _ = 0

abbrev doc_file : String → Thrown Doc
doc_file path =
    if path =? "a.yaml"
    then answers outer
    else if path =? "b.yaml"
    then answers inner
    else raises "bad file"

doc_items_depth : (d : Doc) → All (λ m. doc_depth m < doc_depth d) (doc_items d)
doc_items_depth nodes = (omega arith, tt)
doc_items_depth subgraphs = (omega arith, tt)
doc_items_depth outer = tt
doc_items_depth inner = tt
doc_items_depth outer_graph = tt
doc_items_depth inner_graph = tt
doc_items_depth subgraph = tt
doc_items_depth node = tt
doc_items_depth (word s) = tt

abbrev docs : Yaml
docs = record {
  Node = Doc;
  is_map = doc_is_map;
  is_sequence = doc_is_sequence;
  is_scalar = λ d. false;
  is_null = λ d. false;
  scalar = λ d. "";
  items = doc_items;
  entries = λ d. [];
  lookup = λ d key. answers (doc_lookup d key);
  to_string = doc_text;
  to_size = λ d. raises "bad conversion";
  to_int = λ d. raises "bad conversion";
  to_bool = λ d. raises "bad conversion";
  expand = λ s. s;
  double_of = λ s. none;
  join = λ base file. file;
  parent_path = λ path. "";
  canonical = λ path. answers path;
  normal = λ path. path;
  read_file = doc_file;
  depth = doc_depth;
}

docs-AreTrees : AreTrees docs
docs-AreTrees d = (doc_items_depth d, tt)

abbrev doc_names : List String
doc_names = "a.yaml" ∷ "b.yaml" ∷ []

docs_files : AreFiles docs doc_names
unfolding member
docs_files path n h =
    ground (
      arith,
      eq_iff "a.yaml" path,
      eq_iff path "a.yaml",
      eq_iff "b.yaml" path,
      eq_iff path "b.yaml",
    )

abbrev spell : ℤ → String
spell n = ""

load_graph_file-IsLoaded_example :
    (load_graph_file docs spell 3 "a.yaml" ≢ exhausted)
    × ((c : GraphConfig) → load_graph_file docs spell 3 "a.yaml" ≡ gives c → IsLoaded c)
load_graph_file-IsLoaded_example =
    load_graph_file-IsLoaded docs docs-AreTrees doc_names docs_files spell "a.yaml"

split_endpoint_lem_example :
    (split_endpoint "cam.left.out" ≡ gives ("cam.left", "out"))
    ↔ IsSplit "cam.left.out" "cam.left" "out"
split_endpoint_lem_example = split_endpoint_lem "cam.left.out" "cam.left" "out"

abbrev overrides : Object
overrides =
    ("cam.rate", ConfigValue.integer (pos 30)) ∷ ("mic.rate", ConfigValue.integer (pos 8)) ∷ []

abbrev camera : NodeConfig
camera = record {
  id = "cam";
  type = "Camera";
  executor = "io";
  options = ("rate", ConfigValue.integer (pos 15)) ∷ [];
  input_policy = sync;
  has_input_policy = false;
  trigger_port = "";
}

abbrev short_queue : QueueConfig
short_queue = record { capacity = 4; policy = block }

abbrev empty_graph : GraphConfig
empty_graph = record {
  version = pos 2;
  name = "";
  executors = [];
  nodes = [];
  edges = [];
  inputs = [];
  outputs = [];
  source_slots = [];
  side_packets = [];
  flow_control = record {
    input_queue = short_queue;
    edge_queue = short_queue;
    observer_queue = short_queue;
    observe_timestamp_bounds = false;
  };
}

abbrev parent : GraphConfig
parent = record empty_graph { nodes = record camera { id = "main" } ∷ [] }

abbrev child : GraphConfig
child = record empty_graph { nodes = camera ∷ [] }

abbrev merged : GraphConfig
merged = record parent { nodes = parent.nodes ++ map (merge_node "sub" overrides) child.nodes }

overrides_distinct : AreDistinct overrides
unfolding find
overrides_distinct = (refl, (refl, tt))

merged_passes : merge_subgraph parent child "sub" overrides ≡ pass merged
unfolding merge_subgraph
merged_passes = refl

merge_subgraph_lem_example :
    (m : NodeConfig) × (get_elem? merged.nodes (length parent.nodes + 0) ≡ some m)
    × (m.id ≡ "sub" +s "." +s "cam")
    × (m.type ≡ "Camera")
    × (m.executor ≡ "io")
    × ((key : String)
        → find key m.options
          ≡ or_else (find (("cam" +s ".") +s key) overrides) (find key camera.options))
merge_subgraph_lem_example =
    merge_subgraph_lem parent child merged "sub" overrides 0 camera overrides_distinct merged_passes
      refl
