-- ===== src/Graph/Validation.antt =====
-- `Graph::Validate` of src/core/graph.cpp. The registry gives the contract of a fresh node of each
-- type; `none` is a null registry. Maps and sets are filled in the order of the configuration.
pub mod Sound
pub mod WellFormed
use rk_avp.Prelude.{
  ℕ, zero, suc, ◌+◌, ◌≡◌, refl, Bool, true, false, ◌&&◌, ◌||◌, not, List, [], ◌∷◌, map, is_empty,
  length, Option, none, some, String, ◌=?◌, string_keys, ◌==◌, if◌then◌else◌,
}
use rk_avp.Prelude.Maps.{find, emplace, contains, is_some}
use rk_avp.Prelude.Names.{member}
use rk_avp.MediaCaps.{compatible_with}
use rk_avp.ConfigValue.{is_null}
use rk_avp.Queue.{QueuePolicy, block, drop_oldest, drop_newest}
use rk_avp.Node.Contract.{
  NodeContract, PortSpec, InputPolicy, latest, is_latest, find_input, find_output, find_port,
  validate_options,
}
use rk_avp.Status.{Status, Result, pass, fail, refuse_if, is_ok, to_status, ◌>>=◌, ◌>>◌, ◌+s◌}
use rk_avp.Status
use rk_avp.Graph.{
  GraphConfig, ExecutorConfig, NodeConfig, EdgeConfig, GraphPortConfig, SourceSlotConfig,
}
use rk_avp.Graph.Acyclic.{find_cycle}

abbrev pub Registry : Type 0
Registry = List (String × NodeContract)

abbrev pub Executors : Type 0
Executors = List (String × ExecutorConfig)

abbrev pub Nodes : Type 0
Nodes = List (String × NodeConfig)

abbrev pub Contracts : Type 0
Contracts = List (String × NodeContract)

abbrev pub is_block : QueuePolicy → Bool
is_block block = true
is_block _ = false

abbrev pub require {ℓ} : {A : Type ℓ} → Option A → Status → Result A
require none s = fail s
require (some a) s = pass a

pub require-pass {ℓ κ} :
    {A : Type ℓ} {B : Type κ} (o : Option A) (s : Status) (f : A → Result B) {b : B}
    → (require o s >>= f) ≡ pass b
    → (a : A) × (o ≡ some a) × (f a ≡ pass b)
require-pass none s f h = absurd (cc)
require-pass (some a) s f h = (a, refl, h)

unfoldable pub add_executors : List ExecutorConfig → Executors → Result Executors
add_executors [] m = pass m
add_executors (x ∷ xs) m = do
  refuse_if (contains x.name m) (Status.already_exists ("duplicate executor: " +s x.name))
  add_executors xs (emplace x.name x m).0

-- The checks on one node; the result is its contract.
unfoldable pub check_node : Registry → Executors → Nodes → NodeConfig → Result NodeContract
check_node registry executors nodes n = do
  refuse_if (n.id =? "" || n.type =? "") (Status.invalid "node id and type are required")
  refuse_if (contains n.id nodes) (Status.already_exists ("duplicate node id: " +s n.id))
  refuse_if (not (contains n.executor executors))
      (Status.not_found ("node " +s n.id +s " references unknown executor: " +s n.executor))
  contract ← require (find n.type registry) (Status.not_found ("unknown node type: " +s n.type))
  let options_status = validate_options contract n.options
  refuse_if (not (is_ok options_status))
      (Status.invalid ("node " +s n.id +s ": " +s options_status.message))
  let policy = if n.has_input_policy then n.input_policy else contract.input_policy
  let trigger = if n.trigger_port =? "" then contract.trigger_port else n.trigger_port
  refuse_if (is_latest policy && not (trigger =? "") && not (is_some (find_input contract trigger)))
      (Status.invalid ("node " +s n.id +s " latest trigger port not found: " +s trigger))
  pass contract

unfoldable pub add_nodes :
    Registry → Executors → List NodeConfig → Nodes → Contracts → Result (Nodes × Contracts)
unfolding check_node
add_nodes registry executors [] nodes contracts = pass (nodes, contracts)
add_nodes registry executors (n ∷ ns) nodes contracts = do
  contract ← check_node registry executors nodes n
  add_nodes registry executors ns (emplace n.id n nodes).0 (emplace n.id contract contracts).0

-- `executors.at(name)->threads == 1`; a name that is not there throws in the source, and every
-- node's executor was found before.
abbrev pub is_single : Option ExecutorConfig → Bool
is_single none = false
is_single (some x) = x.threads == 1

abbrev pub same_single_executor : Executors → Option NodeConfig → Option NodeConfig → Bool
same_single_executor executors (some a) (some b) =
    a.executor =? b.executor && is_single (find a.executor executors)
same_single_executor executors _ _ = false

unfoldable pub check_edge : Executors → Nodes → Contracts → EdgeConfig → Result (Unit {0})
check_edge executors nodes contracts e = do
  source ←
      require (find e.from_node contracts)
        (Status.not_found ("edge source node not found: " +s e.from_node))
  destination ←
      require (find e.to_node contracts)
        (Status.not_found ("edge destination node not found: " +s e.to_node))
  output ←
      require (find_output source e.from_port)
        (Status.not_found ("output port not found: " +s e.from_node +s "." +s e.from_port))
  input ←
      require (find_input destination e.to_port)
        (Status.not_found ("input port not found: " +s e.to_node +s "." +s e.to_port))
  refuse_if (not (compatible_with output.caps input.caps)) (
      Status.invalid (
        "incompatible media caps on edge " +s e.from_node +s "." +s e.from_port +s " -> "
        +s e.to_node +s "." +s e.to_port))
  refuse_if (e.back_edge && is_null e.initial_packet)
      (Status.invalid ("back edge requires initial_packet: " +s e.from_node +s "." +s e.from_port))
  refuse_if
      (is_block e.queue.policy
        && same_single_executor executors (find e.from_node nodes) (find e.to_node nodes))
      (Status.invalid (
        "blocking edge on a single-thread executor can deadlock: " +s e.from_node +s " -> "
        +s e.to_node))

unfoldable pub check_edges : Executors → Nodes → Contracts → List EdgeConfig → Result (Unit {0})
unfolding check_edge
check_edges executors nodes contracts [] = pass tt
check_edges executors nodes contracts (e ∷ es) = do
  check_edge executors nodes contracts e
  check_edges executors nodes contracts es

abbrev pub has_input : Option NodeContract → String → Bool
has_input none port = false
has_input (some c) port = is_some (find_input c port)

-- The result is the set of names.
unfoldable pub check_inputs : Contracts → List GraphPortConfig → List String → Result (List String)
check_inputs contracts [] names = pass names
check_inputs contracts (p ∷ ps) names = do
  refuse_if (member p.name names) (Status.already_exists ("duplicate graph input: " +s p.name))
  refuse_if (p.queue.capacity == 0)
      (Status.invalid ("graph input queue capacity must be positive: " +s p.name))
  refuse_if (not (has_input (find p.node contracts) p.port))
      (Status.not_found ("graph input endpoint not found: " +s p.node +s "." +s p.port))
  check_inputs contracts ps (p.name ∷ names)

unfoldable pub check_slots : List String → List SourceSlotConfig → List String → Result (Unit {0})
check_slots inputs [] names = pass tt
check_slots inputs (s ∷ ss) names = do
  refuse_if (member s.name names) (Status.already_exists ("duplicate source slot: " +s s.name))
  refuse_if (not (member s.input_stream inputs))
      (Status.not_found ("source slot references unknown graph input: " +s s.input_stream))
  check_slots inputs ss (s.name ∷ names)

-- The lambda `validate_ports`; the flag says that the ports are inputs.
unfoldable pub validate_ports :
    Contracts → Bool → List GraphPortConfig → List String → Result (Unit {0})
validate_ports contracts input [] names = pass tt
validate_ports contracts input (p ∷ ps) names = do
  refuse_if (member p.name names) (Status.already_exists ("duplicate graph port: " +s p.name))
  contract ←
      require (find p.node contracts) (Status.not_found ("graph port node not found: " +s p.node))
  refuse_if
      (not (is_some (if input then find_input contract p.port else find_output contract p.port)))
      (Status.not_found ("graph port endpoint not found: " +s p.node +s "." +s p.port))
  validate_ports contracts input ps (p.name ∷ names)

-- The keys of a map in the order in which it is walked.
abbrev pub names_of {ℓ} : {V : Type ℓ} → List (String × V) → List String
names_of [] = []
names_of ((k, v) ∷ m) = k ∷ names_of m

abbrev pub acyclic_result : Option (Option String) → Result (Unit {0})
acyclic_result (some none) = pass tt
acyclic_result (some (some n)) =
    fail (Status.invalid ("graph contains an undeclared cycle involving node: " +s n))
acyclic_result none = fail (Status.internal "the search has not ended")

unfoldable pub validate_acyclic : List EdgeConfig → Nodes → Result (Unit {0})
validate_acyclic es nodes =
    acyclic_result (find_cycle (suc (length (names_of nodes))) es (names_of nodes))

unfoldable pub validate : Option Registry → GraphConfig → Result (Unit {0})
validate registry config = do
  types ← require registry (Status.failed_precondition "graph has no node registry")
  refuse_if (is_empty config.nodes) (Status.invalid "graph contains no nodes")
  refuse_if (config.flow_control.observer_queue.capacity == 0)
      (Status.invalid "observer queue capacity must be positive")
  refuse_if (is_block config.flow_control.observer_queue.policy) (
      Status.invalid
        "observer queue policy cannot be block because callbacks must not stall graph executors")
  executors ← add_executors config.executors []
  (nodes, contracts) ← add_nodes types executors config.nodes [] []
  check_edges executors nodes contracts config.edges
  graph_inputs ← check_inputs contracts config.inputs []
  check_slots graph_inputs config.source_slots []
  validate_ports contracts true config.inputs []
  validate_ports contracts false config.outputs []
  validate_acyclic config.edges nodes
