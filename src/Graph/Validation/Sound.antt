-- ===== src/Graph/Validation/Sound.antt =====
-- What each check of `Graph::Validate` says of a configuration that passes it.
use rk_avp.Prelude.{
  ◌≡◌, refl, sym, ◌∙◌, Bool, true, false, ◌&&◌, ◌||◌, List, [], ◌∷◌, All, Option, none, some,
  String, ◌=?◌, string_keys, if◌then◌else◌, arith, eq_iff, inl, inr, Bool-cases,
}
use rk_avp.Prelude.Maps.{find, emplace, contains, is_some, find-emplace, or_else}
use rk_avp.Prelude.Names.{member}
use rk_avp.MediaCaps.{compatible_with}
use rk_avp.ConfigValue.{is_null}
use rk_avp.Node.Contract.{NodeContract, PortSpec, find_input, find_output}
use rk_avp.Status.{Result, pass, fail, ◌>>=◌, refuse_if-pass}
use rk_avp.Graph.{ExecutorConfig, NodeConfig, EdgeConfig}
use rk_avp.Graph.Validation.{
  Registry, Executors, Nodes, Contracts, is_block, same_single_executor, require-pass,
  add_executors, check_node, add_nodes, check_edge,
}

-- The node of a name and its contract, read off the configuration.
unfoldable pub node_named : String → List NodeConfig → Option NodeConfig
node_named k [] = none
node_named k (n ∷ ns) = if n.id =? k then some n else node_named k ns

unfoldable pub contract_named : Registry → String → List NodeConfig → Option NodeContract
contract_named types k [] = none
contract_named types k (n ∷ ns) = if n.id =? k then find n.type types else contract_named types k ns

abbrev pub ids : List NodeConfig → List String
ids [] = []
ids (n ∷ ns) = n.id ∷ ids ns

abbrev pub Distinct : List String → Type 0
Distinct [] = Unit {0}
Distinct (x ∷ xs) = (member x xs ≡ false) × Distinct xs

check_node-pass :
    (types : Registry) (executors : Executors) (nodes : Nodes) (n : NodeConfig) {c : NodeContract}
    → check_node types executors nodes n ≡ pass c
    → (contains n.id nodes ≡ false)
      × (contains n.executor executors ≡ true)
      × (find n.type types ≡ some c)
unfolding check_node
check_node-pass types executors nodes n h = ground arith

abbrev pub SameKeys : Nodes → Contracts → Type 0
SameKeys N C = (k : String) → is_some (find k N) ≡ is_some (find k C)

add_nodes-pass :
    (types : Registry) (executors : Executors) (n : NodeConfig) (ns : List NodeConfig) (N : Nodes)
    (C : Contracts) (r : Nodes × Contracts)
    → add_nodes types executors (n ∷ ns) N C ≡ pass r
    → (c : NodeContract) × (check_node types executors N n ≡ pass c)
      × (add_nodes types executors ns (emplace n.id n N).0 (emplace n.id c C).0 ≡ pass r)
unfolding add_nodes
add_nodes-pass types executors n ns N C r h = split (check_node types executors N n) h
  where
    split :
        (m : Result NodeContract)
        → (m >>= λ c. add_nodes types executors ns (emplace n.id n N).0 (emplace n.id c C).0)
          ≡ pass r
        → (c : NodeContract) × (m ≡ pass c)
          × (add_nodes types executors ns (emplace n.id n N).0 (emplace n.id c C).0 ≡ pass r)
    split (pass c) e = (c, refl, e)
    split (fail s) e = absurd (cc)

contains-SameKeys :
    (N : Nodes) (C : Contracts) (k : String)
    → SameKeys N C
    → contains k N ≡ false
    → contains k C ≡ false
unfolding contains
contains-SameKeys N C k s h = sym (s k) ∙ h

module _ (types : Registry) (n : NodeConfig) (c : NodeContract) (N : Nodes) (C : Contracts)
    (fresh : contains n.id N ≡ false) (fresh' : contains n.id C ≡ false) where
  SameKeys-emplace : SameKeys N C → SameKeys (emplace n.id n N).0 (emplace n.id c C).0
  SameKeys-emplace s k =
      ground (arith, find-emplace n.id k n N fresh, find-emplace n.id k c C fresh', s k)

  node_named-emplace :
      (ns : List NodeConfig) (k : String)
      → or_else (find k (emplace n.id n N).0) (node_named k ns)
        ≡ or_else (find k N) (node_named k (n ∷ ns))
  unfolding contains node_named
  node_named-emplace ns k = elim (Bool-cases (n.id =? k)) [
    | inl here ↦ ground (arith, find-emplace n.id k n N fresh, eq_iff n.id k)
    | inr there ↦ ground (arith, find-emplace n.id k n N fresh)
  ]

  contract_named-emplace :
      (ns : List NodeConfig) (k : String)
      → find n.type types ≡ some c
      → or_else (find k (emplace n.id c C).0) (contract_named types k ns)
        ≡ or_else (find k C) (contract_named types k (n ∷ ns))
  unfolding contains contract_named
  contract_named-emplace ns k typed = elim (Bool-cases (n.id =? k)) [
    | inl here ↦ ground (arith, find-emplace n.id k c C fresh', eq_iff n.id k)
    | inr there ↦ ground (arith, find-emplace n.id k c C fresh')
  ]

or_else-none {ℓ} : {V : Type ℓ} (o : Option V) → or_else o none ≡ o
or_else-none none = refl
or_else-none (some a) = refl

add_nodes-nil :
    (types : Registry) (executors : Executors) (N N' : Nodes) (C C' : Contracts)
    → add_nodes types executors [] N C ≡ pass (N', C')
    → (N ≡ N') × (C ≡ C')
unfolding add_nodes
add_nodes-nil types executors N N' C C' h = ground arith

-- What the first loop leaves of one run over `ns`.
pub record Filled (types : Registry) (executors : Executors) (ns : List NodeConfig) (N N' : Nodes)
    (C C' : Contracts) : Type 0 where
  pub nodes : (k : String) → find k N' ≡ or_else (find k N) (node_named k ns)
  pub contracts : (k : String) → find k C' ≡ or_else (find k C) (contract_named types k ns)
  pub distinct : Distinct (ids ns)
  pub apart : (k : String) → contains k N ≡ true → member k (ids ns) ≡ false
  pub placed : All (λ n. contains n.executor executors ≡ true) ns
  pub same : SameKeys N' C'

contains-emplace :
    (n : NodeConfig) (N : Nodes) (k : String)
    → contains n.id N ≡ false
    → contains k (emplace n.id n N).0 ≡ (n.id =? k || contains k N)
unfolding contains
contains-emplace n N k h = ground (arith, find-emplace n.id k n N h)

apart-cons :
    (n : NodeConfig) (N : Nodes) (k : String) (ns : List NodeConfig)
    → contains n.id N ≡ false
    → contains k N ≡ true
    → member k (ids ns) ≡ false
    → member k (n.id ∷ ids ns) ≡ false
unfolding member
apart-cons n N k ns fresh i a = ground (arith, eq_iff n.id k)

pub add_nodes-Filled :
    (types : Registry) (executors : Executors) (ns : List NodeConfig) (N N' : Nodes)
    (C C' : Contracts)
    → add_nodes types executors ns N C ≡ pass (N', C')
    → SameKeys N C
    → Filled types executors ns N N' C C'
unfolding node_named contract_named
add_nodes-Filled types executors [] N N' C C' h s =
    let (e, e') = add_nodes-nil types executors N N' C C' h in
    record {
      nodes = λ k. rw (← e) (sym (or_else-none _));
      contracts = λ k. rw (← e') (sym (or_else-none _));
      distinct = tt;
      apart = λ k i. unfold member in refl;
      placed = tt;
      same = λ k. rw (← e, ← e') (s k);
    }
add_nodes-Filled types executors (n ∷ ns) N N' C C' h s =
    let (c, node_passes, later) = add_nodes-pass types executors n ns N C (N', C') h in
    let (fresh, placed, typed) = check_node-pass types executors N n node_passes in
    let fresh' = contains-SameKeys N C n.id s fresh in
    let r =
      add_nodes-Filled types executors ns _ N' _ C' later
        (SameKeys-emplace types n c N C fresh fresh' s) in
    record {
      nodes = λ k. r.nodes k ∙ node_named-emplace types n c N C fresh fresh' ns k;
      contracts = λ k. r.contracts k ∙ contract_named-emplace types n c N C fresh fresh' ns k typed;
      distinct = (
        r.apart n.id (contains-emplace n N n.id fresh ∙ ground (arith, eq_iff n.id n.id)),
        r.distinct,
      );
      apart = λ k i.
          apart-cons n N k ns fresh i
            (r.apart k (contains-emplace n N k fresh ∙ rw i (ground arith)));
      placed = (placed, r.placed);
      same = r.same;
    }

-- The executor of a name, read off the configuration.
unfoldable pub executor_named : String → List ExecutorConfig → Option ExecutorConfig
executor_named k [] = none
executor_named k (x ∷ xs) = if x.name =? k then some x else executor_named k xs

pub add_executors-find :
    (xs : List ExecutorConfig) (M M' : Executors)
    → add_executors xs M ≡ pass M'
    → (k : String) → find k M' ≡ or_else (find k M) (executor_named k xs)
unfolding add_executors executor_named
add_executors-find [] M M' h k = ground (arith, or_else-none (find k M))
add_executors-find (x ∷ xs) M M' h k =
    let (fresh, later) =
      refuse_if-pass (contains x.name M) _ (add_executors xs (emplace x.name x M).0) h in
    add_executors-find xs (emplace x.name x M).0 M' later k ∙ same fresh
  where
    same :
        contains x.name M ≡ false
        → or_else (find k (emplace x.name x M).0) (executor_named k xs)
          ≡ or_else (find k M) (if x.name =? k then some x else executor_named k xs)
    same fresh = unfold contains in ground (arith, find-emplace x.name k x M fresh, eq_iff x.name k)

-- What is checked of an edge, against lookups of any kind.
pub record EdgeFits (contract_of : String → Option NodeContract) (blocks : Bool) (e : EdgeConfig)
    : Type 0 where
  pub source : NodeContract
  pub destination : NodeContract
  pub output : PortSpec
  pub input : PortSpec
  pub from_source : contract_of e.from_node ≡ some source
  pub to_destination : contract_of e.to_node ≡ some destination
  pub at_output : find_output source e.from_port ≡ some output
  pub at_input : find_input destination e.to_port ≡ some input
  pub caps_fit : compatible_with output.caps input.caps ≡ true
  pub seeded : (e.back_edge && is_null e.initial_packet) ≡ false
  pub unblocked : (is_block e.queue.policy && blocks) ≡ false

pub check_edge-EdgeFits :
    (X : Executors) (N : Nodes) (C : Contracts) (e : EdgeConfig)
    → check_edge X N C e ≡ pass tt
    → EdgeFits (λ k. find k C) (same_single_executor X (find e.from_node N) (find e.to_node N)) e
unfolding check_edge
check_edge-EdgeFits X N C e h =
    let (source, from_source, h₁) = require-pass (find e.from_node C) _ _ h in
    let (destination, to_destination, h₂) = require-pass (find e.to_node C) _ _ h₁ in
    let (output, at_output, h₃) = require-pass (find_output source e.from_port) _ _ h₂ in
    let (input, at_input, h₄) = require-pass (find_input destination e.to_port) _ _ h₃ in
    record {
      source = source;
      destination = destination;
      output = output;
      input = input;
      from_source = from_source;
      to_destination = to_destination;
      at_output = at_output;
      at_input = at_input;
      caps_fit = ground arith;
      seeded = ground arith;
      unblocked = ground arith;
    }
