-- ===== src/Graph/Validation/WellFormed.antt =====
-- What `Graph::Validate` promises of a configuration that it accepts.
use rk_avp.Prelude.{
  suc, ◌≡◌, refl, sym, ap, ◌∙◌, Bool, true, false, ◌&&◌, List, [], ◌∷◌, All, All-map, length,
  Option, none, some, String, ◌=?◌, string_keys, ◌==◌, arith, inl, inr, Bool-cases, ◌<◌,
}
use rk_avp.Prelude.Maps.{find, contains, is_some}
use rk_avp.Prelude.Names.{member}
use rk_avp.Node.Contract.{NodeContract}
use rk_avp.Status.{pass, >>=-pass, >>-pass, refuse_if-pass}
use rk_avp.Graph.{GraphConfig, ExecutorConfig, NodeConfig, EdgeConfig}
use rk_avp.Graph.Acyclic.{find_cycle, adjacent, Reaches}
use rk_avp.Graph.Acyclic.Fuel.{Closed, find_cycle_decides}
use rk_avp.Graph.Validation.{
  Registry, Executors, Nodes, Contracts, is_block, is_single, same_single_executor, add_executors,
  add_nodes, check_edge, check_edges, check_inputs, check_slots, validate_ports, names_of,
  acyclic_result, validate_acyclic, validate,
}
use rk_avp.Graph.Validation.Sound.{
  node_named, contract_named, executor_named, ids, Distinct, EdgeFits, Filled, add_nodes-Filled,
  add_executors-find, check_edge-EdgeFits,
}

-- Whether both ends of an edge share an executor of one thread.
abbrev pub shares : (String → Option ExecutorConfig) → Option NodeConfig → Option NodeConfig → Bool
shares executor_of (some a) (some b) =
    a.executor =? b.executor && is_single (executor_of a.executor)
shares executor_of _ _ = false

pub record WellFormed (types : Registry) (config : GraphConfig) : Type 0 where
  pub distinct_nodes : Distinct (ids config.nodes)
  pub placed_nodes :
      All (λ n. is_some (executor_named n.executor config.executors) ≡ true) config.nodes
  pub edges_fit :
      All
        (λ e.
          EdgeFits
            (λ k. contract_named types k config.nodes)
            (shares
              (λ k. executor_named k config.executors)
              (node_named e.from_node config.nodes)
              (node_named e.to_node config.nodes))
            e)
        config.edges
  pub acyclic : (n : String) → member n (ids config.nodes) ≡ true → ¬ Reaches config.edges n n
  pub observers_bounded : 0 < config.flow_control.observer_queue.capacity
  pub observers_never_block : is_block config.flow_control.observer_queue.policy ≡ false

-- The parts of a run of `validate` that passes.
record Parts (types : Registry) (config : GraphConfig) : Type 0 where
  executors : Executors
  nodes : Nodes
  contracts : Contracts
  executors_added : add_executors config.executors [] ≡ pass executors
  nodes_added : add_nodes types executors config.nodes [] [] ≡ pass (nodes, contracts)
  edges_checked : check_edges executors nodes contracts config.edges ≡ pass tt
  acyclic_checked : validate_acyclic config.edges nodes ≡ pass tt
  observer_positive : (config.flow_control.observer_queue.capacity == 0) ≡ false
  observer_open : is_block config.flow_control.observer_queue.policy ≡ false

validate-Parts :
    (types : Registry) (config : GraphConfig)
    → validate (some types) config ≡ pass tt
    → Parts types config
unfolding validate
validate-Parts types config h =
    let (some_nodes, h₁) = refuse_if-pass _ _ _ h in
    let (positive, h₂) = refuse_if-pass _ _ _ h₁ in
    let (open_policy, h₃) = refuse_if-pass _ _ _ h₂ in
    let (executors, h₄, h₅) = >>=-pass (add_executors config.executors []) _ h₃ in
    let (maps, h₆, h₇) = >>=-pass (add_nodes types executors config.nodes [] []) _ h₅ in
    let (h₈, h₉) = >>-pass (check_edges executors maps.0 maps.1 config.edges) _ h₇ in
    let (names, h₁₀, h₁₁) = >>=-pass (check_inputs maps.1 config.inputs []) _ h₉ in
    let (h₁₂, h₁₃) = >>-pass (check_slots names config.source_slots []) _ h₁₁ in
    let (h₁₄, h₁₅) = >>-pass (validate_ports maps.1 true config.inputs []) _ h₁₃ in
    let (h₁₆, h₁₇) = >>-pass (validate_ports maps.1 false config.outputs []) _ h₁₅ in
    record {
      executors = executors;
      nodes = maps.0;
      contracts = maps.1;
      executors_added = h₄;
      nodes_added = h₆;
      edges_checked = h₈;
      acyclic_checked = h₁₇;
      observer_positive = positive;
      observer_open = open_policy;
    }

check_edges-All :
    (X : Executors) (N : Nodes) (C : Contracts) (es : List EdgeConfig)
    → check_edges X N C es ≡ pass tt
    → All
        (λ e.
          EdgeFits
            (λ k. find k C)
            (same_single_executor X (find e.from_node N) (find e.to_node N))
            e)
        es
unfolding check_edges
check_edges-All X N C [] h = tt
check_edges-All X N C (e ∷ es) h =
    let (one, others) = >>-pass (check_edge X N C e) _ h in
    (check_edge-EdgeFits X N C e one, check_edges-All X N C es others)

member-names_of {ℓ} :
    {V : Type ℓ} (k : String) (m : List (String × V)) → member k (names_of m) ≡ is_some (find k m)
unfolding member find
member-names_of k [] = refl
member-names_of k ((j, v) ∷ m) = elim (Bool-cases (j =? k)) [
  | inl e ↦ rw e
  | inr e ↦ rw e (member-names_of k m)
]

member-ids : (k : String) (ns : List NodeConfig) → member k (ids ns) ≡ is_some (node_named k ns)
unfolding member node_named
member-ids k [] = refl
member-ids k (n ∷ ns) = elim (Bool-cases (n.id =? k)) [
  | inl e ↦ rw e
  | inr e ↦ rw e (member-ids k ns)
]

-- Every target is a node when every edge ends at one.
adjacent-All :
    (P : String → Type 0) (es : List EdgeConfig) (n : String)
    → All (λ (e : EdgeConfig). P e.to_node) es
    → All P (adjacent es n)
unfolding adjacent
adjacent-All P [] n h = tt
adjacent-All P (e ∷ es) n h = elim (Bool-cases e.back_edge) [
  | inl back ↦ rw back (adjacent-All P es n h.1)
  | inr forward ↦ elim (Bool-cases (e.from_node =? n)) [
    | inl here ↦ rw (forward, here) (h.0, adjacent-All P es n h.1)
    | inr there ↦ rw (forward, there) (adjacent-All P es n h.1)
  ]
]

acyclic-pass : (r : Option (Option String)) → acyclic_result r ≡ pass tt → r ≡ some none
acyclic-pass none h = absurd (cc)
acyclic-pass (some none) h = refl
acyclic-pass (some (some n)) h = absurd (cc)

-- The search over the nodes of a configuration whose edges were checked.
nodes_acyclic :
    (N : Nodes) (es : List EdgeConfig)
    → All (λ (e : EdgeConfig). is_some (find e.to_node N) ≡ true) es
    → validate_acyclic es N ≡ pass tt
    → (n : String) → is_some (find n N) ≡ true
    → ¬ Reaches es n n
unfolding validate_acyclic
nodes_acyclic N es targets h n i =
    let (r, ends, decided) = find_cycle_decides es (names_of N) closed in
    let none_found : r ≡ none =
      (let e = acyclic-pass (find_cycle (suc (length (names_of N))) es (names_of N)) h in cc) in
    elim decided [
      | inl (_, none_reach) ↦ none_reach n (member-names_of n N ∙ i)
      | inr (found, _) ↦ absurd (found none_found)
    ]
  where
    closed : Closed es (names_of N)
    closed k = adjacent-All _ es k (All-map _ _ es (λ e i. member-names_of e.to_node N ∙ i) targets)

shares-lookups :
    (X : Executors) (xs : List ExecutorConfig) (a b : Option NodeConfig)
    → ((k : String) → find k X ≡ executor_named k xs)
    → same_single_executor X a b ≡ shares (λ k. executor_named k xs) a b
shares-lookups X xs none b h = refl
shares-lookups X xs (some a) none h = refl
shares-lookups X xs (some a) (some b) h = rw (h a.executor)

EdgeFits-lookups :
    (f g : String → Option NodeContract) (a b : Bool) (e : EdgeConfig)
    → ((k : String) → f k ≡ g k)
    → a ≡ b
    → EdgeFits f a e
    → EdgeFits g b e
EdgeFits-lookups f g a b e h s p = record {
  source = p.source;
  destination = p.destination;
  output = p.output;
  input = p.input;
  from_source = sym (h e.from_node) ∙ p.from_source;
  to_destination = sym (h e.to_node) ∙ p.to_destination;
  at_output = p.at_output;
  at_input = p.at_input;
  caps_fit = p.caps_fit;
  seeded = p.seeded;
  unblocked = rw s at p.unblocked;
}

-- The maps that `validate` fills are lookups in the configuration.
module _ (types : Registry) (config : GraphConfig) (p : Parts types config) where
  filled : Filled types p.executors config.nodes [] p.nodes [] p.contracts
  filled =
      add_nodes-Filled types p.executors config.nodes [] p.nodes [] p.contracts p.nodes_added
        (λ k. unfold find in refl)

  nodes_lookup : (k : String) → find k p.nodes ≡ node_named k config.nodes
  unfolding find
  nodes_lookup k = filled.nodes k

  contracts_lookup : (k : String) → find k p.contracts ≡ contract_named types k config.nodes
  unfolding find
  contracts_lookup k = filled.contracts k

  executors_lookup : (k : String) → find k p.executors ≡ executor_named k config.executors
  unfolding find
  executors_lookup k = add_executors-find config.executors [] p.executors p.executors_added k

  map_edges :
      All
        (λ e.
          EdgeFits
            (λ k. find k p.contracts)
            (same_single_executor p.executors (find e.from_node p.nodes) (find e.to_node p.nodes))
            e)
        config.edges
  map_edges = check_edges-All p.executors p.nodes p.contracts config.edges p.edges_checked

  targets : All (λ (e : EdgeConfig). is_some (find e.to_node p.nodes) ≡ true) config.edges
  targets =
      All-map _ _ config.edges (λ e fits. filled.same e.to_node ∙ rw fits.to_destination) map_edges

  Parts-WellFormed : WellFormed types config
  unfolding contains
  Parts-WellFormed = record {
    distinct_nodes = filled.distinct;
    placed_nodes =
        All-map _ _ config.nodes (λ n i. ap is_some (sym (executors_lookup n.executor)) ∙ i)
          filled.placed;
    edges_fit =
        All-map _ _ config.edges
          (λ e fits.
            EdgeFits-lookups _ _ _ _ e contracts_lookup
              (rw (nodes_lookup e.from_node, nodes_lookup e.to_node)
                (shares-lookups p.executors config.executors (node_named e.from_node config.nodes)
                  (node_named e.to_node config.nodes) executors_lookup))
              fits)
          map_edges;
    acyclic = λ n i.
        nodes_acyclic p.nodes config.edges targets p.acyclic_checked n
          (ap is_some (nodes_lookup n) ∙ sym (member-ids n config.nodes) ∙ i);
    observers_bounded = let e = p.observer_positive in ground arith;
    observers_never_block = p.observer_open;
  }

-- An accepted configuration is well formed: node ids are distinct and their executors declared;
-- every edge joins ports that exist, with compatible capabilities; back edges carry a packet;
-- no blocking edge stays on one single-threaded executor; no node reaches itself over forward
-- edges; and the observers' queue is positive and does not block.
pub validate-WellFormed :
    (types : Registry) (config : GraphConfig)
    → validate (some types) config ≡ pass tt
    → WellFormed types config
validate-WellFormed types config h = Parts-WellFormed types config (validate-Parts types config h)
