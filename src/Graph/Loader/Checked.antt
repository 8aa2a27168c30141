-- ===== src/Graph/Loader/Checked.antt =====
-- The entries of the sections of a YAML graph, of src/core/graph_config.cpp.
use rk_avp.Prelude.{
  ℕ, ◌<◌, ◌≡◌, refl, Bool, true, false, ◌||◌, ◌&&◌, not, List, [], ◌∷◌, All, Option, none, some,
  String, ℤ, ◌==◌, ◌=?◌, string_keys, if◌then◌else◌, arith, is_empty,
}
use rk_avp.ConfigValue.{
  ConfigValue, Object, null, boolean, integer, double_bits, text, array, object,
}
use rk_avp.Node.Contract.{InputPolicy}
use rk_avp.Graph.{
  QueueConfig, FlowControlConfig, ExecutorConfig, EdgeConfig, GraphPortConfig, SourceSlotConfig,
}
use rk_avp.Graph.Loader.{
  Yaml, AreTrees, Parsed, gives, ◌>>=◌, as_string, parse_queue, parse_input_policy, split_endpoint,
  endpoint_of, bad_endpoint, dot,
}
use rk_avp.Prelude.Maps.{emplace}
use rk_avp.Prelude.Texts.{split_last}
use rk_avp.Graph.Loader.Ensures.{
  Ensures, Ends, ensured, returned, thrown, escaped, Ensures-bind, Ensures-bind_end,
  Ensures-return_if,
}
use rk_avp.Graph.Loader.Wellformed.{
  IsPositive, IsText, loader_rules, parse_queue-IsPositive, Ensures-each, Ends-as_string,
  Ends-value_at,
}
use rk_avp.Graph.Loader.Sections.{
  named_policy, node_policy, options_by, options_of, parse_node, endpoint_node, scalar_endpoint,
  port_queue, parse_graph_port, parse_graph_ports, template_of, slot_fields, parse_slot,
  parse_slots, parse_side_packets, object_or, initial_of, parse_edge, parse_edges, needs,
  parse_flow, value_at, parse_executor, or_one, parse_executors,
}

-- What the loader promises of an executor, a port, an edge and a source slot.
abbrev pub IsExecutor : ExecutorConfig → Type 0
IsExecutor e = IsText e.name × (0 < e.threads) × (0 < e.queue_capacity)

abbrev pub IsPort : GraphPortConfig → Type 0
IsPort p = IsText p.node × IsText p.port × IsPositive p.queue

abbrev pub IsEdge : EdgeConfig → Type 0
IsEdge e =
    IsText e.from_node
    × IsText e.from_port
    × IsText e.to_node
    × IsText e.to_port
    × IsPositive e.queue

abbrev pub IsSlot : SourceSlotConfig → Type 0
IsSlot s =
    IsText s.name × IsText s.input_stream × (IsText s.subgraph_template → IsText s.output_stream)

abbrev pub IsFlow : FlowControlConfig → Type 0
IsFlow f = IsPositive f.input_queue × IsPositive f.edge_queue × IsPositive f.observer_queue

abbrev pub IsEndpoint : String × String → Type 0
IsEndpoint e = IsText (e.0) × IsText (e.1)

IsExecutor-valid :
    (name : String) (threads capacity : ℕ) (priority : ℤ)
    → ((name =? "") || (threads == 0) || (capacity == 0)) ≡ false
    → IsExecutor
        (record { name = name; threads = threads; queue_capacity = capacity; priority = priority })
IsExecutor-valid name threads capacity priority h = (ground arith, ground arith, ground arith)

IsSlot-valid :
    (s : SourceSlotConfig)
    → ((s.name =? "") || (s.input_stream =? "")) ≡ false
    → (not (s.subgraph_template =? "") && (s.output_stream =? "")) ≡ false
    → IsSlot s
IsSlot-valid s h k = (ground arith, ground arith, λ t. ground arith)

endpoint_of-IsEndpoint :
    (e : String) (o : Option (String × String)) → Ensures IsEndpoint (endpoint_of e o)
endpoint_of-IsEndpoint e none = returned _
endpoint_of-IsEndpoint e (some (node, port)) = if_test ((node =? "") || (port =? "")) refl
  where
    if_test :
        (b : Bool)
        → ((node =? "") || (port =? "")) ≡ b
        → Ensures IsEndpoint (if b then bad_endpoint e else gives (node, port))
    if_test true h = returned _
    if_test false h = ensured (node, port) (ground arith, ground arith)

split_endpoint-IsEndpoint : (e : String) → Ensures IsEndpoint (split_endpoint e)
unfolding split_endpoint
split_endpoint-IsEndpoint e = endpoint_of-IsEndpoint e (split_last dot e)

or_one-IsExecutor :
    (es : List ExecutorConfig)
    → All IsExecutor es
    → All IsExecutor (or_one es) × (is_empty (or_one es) ≡ false)
or_one-IsExecutor [] h = (((refl, omega arith, omega arith), tt), refl)
or_one-IsExecutor (e ∷ es) h = (h, refl)

Ends-parse_input_policy : (s : String) → Ends (parse_input_policy s)
unfolding parse_input_policy
Ends-parse_input_policy s = search loader_rules

Ends-named_policy : (id : String) (m : Parsed InputPolicy) → Ends m → Ends (named_policy id m)
Ends-named_policy id _ (ensured p h) = ensured _ tt
Ends-named_policy id _ (returned s) = returned _
Ends-named_policy id _ (thrown e) = thrown e
Ends-named_policy id _ (escaped e) = escaped e

pub Ends-object_or : (v : ConfigValue) (message : String) → Ends (object_or v message)
Ends-object_or null m = returned _
Ends-object_or (boolean b) m = returned _
Ends-object_or (integer n) m = returned _
Ends-object_or (double_bits n) m = returned _
Ends-object_or (text t) m = returned _
Ends-object_or (array vs) m = returned _
Ends-object_or (object fs) m = ensured _ tt

IsEdge-valid :
    (from to : String × String) (q : QueueConfig) (back : Bool) (initial : ConfigValue)
    → IsEndpoint from
    → IsEndpoint to
    → IsPositive q
    → IsEdge (record {
      from_node = from.0;
      from_port = from.1;
      to_node = to.0;
      to_port = to.1;
      queue = q;
      back_edge = back;
      initial_packet = initial;
    })
IsEdge-valid from to q back initial f t h = (f.0, f.1, t.0, t.1, h)

module _ (y : Yaml) (trees : AreTrees y) where
  Ends-needs : (o : Option y.Node) (message : String) → Ends (needs y o message)
  Ends-needs none message = returned _
  Ends-needs (some n) message = ensured n tt

  -- A queue, and what is made of it.
  Ensures-queue :
      {B : Type 0} {P : B → Type 0} (o : Option y.Node) (d : QueueConfig) (name : String)
      (f : QueueConfig → Parsed B)
      → IsPositive d
      → ((q : QueueConfig) → IsPositive q → Ensures P (f q))
      → Ensures P (parse_queue y o d name >>= f)
  Ensures-queue o d name f h k = Ensures-bind IsPositive _ f (parse_queue-IsPositive y o d name h) k

  pub parse_executor-IsExecutor : (n : y.Node) → Ensures IsExecutor (parse_executor y n)
  unfolding parse_executor
  parse_executor-IsExecutor n = search (loader_rules, IsExecutor-valid) depth 14

  pub parse_flow-IsFlow :
      (v : ℤ) (o : Option y.Node) (flow : FlowControlConfig)
      → IsFlow flow
      → Ensures IsFlow (parse_flow y v o flow)
  unfolding parse_flow
  parse_flow-IsFlow v none flow h = ensured flow h
  parse_flow-IsFlow v (some n) flow (a, b, c) = search (loader_rules, Ensures-queue) depth 20

  Ends-template_of : (base : String) (o : Option y.Node) → Ends (template_of y base o)
  Ends-template_of base none = ensured _ tt
  Ends-template_of base (some n) = search loader_rules

  Ends-slot_fields : (base name : String) (n : y.Node) → Ends (slot_fields y base name n)
  Ends-slot_fields base name n = search (loader_rules, Ends-template_of) depth 14

  pub parse_slot-IsSlot :
      (base : String) (e : y.Node × y.Node) → Ensures IsSlot (parse_slot y base e)
  unfolding parse_slot
  parse_slot-IsSlot base e = search (loader_rules, Ends-slot_fields, IsSlot-valid) depth 14

  pub parse_executors-IsExecutor :
      (o : Option y.Node)
      → Ensures (λ es. All IsExecutor es × (is_empty es ≡ false)) (parse_executors y o)
  unfolding parse_executors
  parse_executors-IsExecutor none = ensured _ (((refl, omega arith, omega arith), tt), refl)
  parse_executors-IsExecutor (some n) = Ensures-return_if _ _ _ (λ _.
      Ensures-bind (All IsExecutor) _ _
        (Ensures-each y IsExecutor (parse_executor y) (y.items n) parse_executor-IsExecutor)
        (λ es h. ensured _ (or_one-IsExecutor es h)))

  Ends-node_policy : (id : String) (o : Option y.Node) → Ends (node_policy y id o)
  Ends-node_policy id none = ensured _ tt
  Ends-node_policy id (some n) =
      Ensures-bind_end _ _ (Ends-as_string y n)
        (λ s. Ends-named_policy id (parse_input_policy s) (Ends-parse_input_policy s))

  Ends-options_by : (es : List (y.Node × y.Node)) (os : Object) → Ends (options_by y es os)
  Ends-options_by [] os = ensured os tt
  Ends-options_by (e ∷ es) os =
      Ensures-bind_end (as_string y (e.0)) _ (Ends-as_string y (e.0)) (λ k.
        Ensures-bind_end (value_at y (e.1)) _ (Ends-value_at y trees (e.1))
          (λ v. Ends-options_by es ((emplace k v os).0)))

  Ends-options_of : (id : String) (o : Option y.Node) → Ends (options_of y id o)
  Ends-options_of id none = ensured [] tt
  Ends-options_of id (some n) = Ensures-return_if _ _ _ (λ _. Ends-options_by (y.entries n) [])

  pub Ends-parse_node : (n : y.Node) → Ends (parse_node y n)
  unfolding parse_node
  Ends-parse_node n = search (loader_rules, Ends-needs, Ends-node_policy, Ends-options_of) depth 24

  Ends-endpoint_node : (n : y.Node) → Ends (endpoint_node y n)
  Ends-endpoint_node n = search loader_rules

  Ends-scalar_endpoint : (o : Option y.Node) (name : String) → Ends (scalar_endpoint y o name)
  Ends-scalar_endpoint none name = returned _
  Ends-scalar_endpoint (some n) name = search loader_rules

  port_queue-IsPositive :
      (allow_queue : Bool) (n : y.Node) (name : String) (d : QueueConfig)
      → IsPositive d
      → Ensures IsPositive (port_queue y allow_queue n name d)
  port_queue-IsPositive allow_queue n name d h = search (loader_rules, parse_queue-IsPositive y)

  parse_graph_port-IsPort :
      (name : String) (allow_queue : Bool) (d : QueueConfig) (e : y.Node × y.Node)
      → IsPositive d
      → Ensures IsPort (parse_graph_port y name allow_queue d e)
  unfolding parse_graph_port
  parse_graph_port-IsPort name allow_queue d e h =
      Ensures-bind_end _ _ (Ends-as_string y (e.0)) (λ port_name.
        Ensures-bind_end _ _ (Ends-endpoint_node (e.1)) (λ found.
          Ensures-bind_end _ _ (Ends-scalar_endpoint found name) (λ n.
            Ensures-bind_end _ _ (Ends-as_string y n) (λ text.
              Ensures-bind IsEndpoint _ _ (split_endpoint-IsEndpoint text) (λ ends i.
                Ensures-bind IsPositive _ _ (port_queue-IsPositive allow_queue (e.1) name d h)
                  (λ q k. ensured _ (i.0, i.1, k)))))))

  pub parse_graph_ports-IsPort :
      (o : Option y.Node) (name : String) (allow_queue : Bool) (d : QueueConfig)
      → IsPositive d
      → Ensures (All IsPort) (parse_graph_ports y o name allow_queue d)
  unfolding parse_graph_ports
  parse_graph_ports-IsPort none name allow_queue d h = ensured [] tt
  parse_graph_ports-IsPort (some n) name allow_queue d h = Ensures-return_if _ _ _ (λ _.
      Ensures-each y IsPort (parse_graph_port y name allow_queue d) (y.entries n)
        (λ e. parse_graph_port-IsPort name allow_queue d e h))

  pub parse_slots-IsSlot :
      (base : String) (o : Option y.Node) → Ensures (All IsSlot) (parse_slots y base o)
  unfolding parse_slots
  parse_slots-IsSlot base none = ensured [] tt
  parse_slots-IsSlot base (some n) =
      Ensures-return_if _ _ _
        (λ _. Ensures-each y IsSlot (parse_slot y base) (y.entries n) (parse_slot-IsSlot base))

  pub Ends-parse_side_packets : (o : Option y.Node) → Ends (parse_side_packets y o)
  unfolding parse_side_packets
  Ends-parse_side_packets none = ensured [] tt
  Ends-parse_side_packets (some n) =
      Ensures-bind_end _ _ (Ends-value_at y trees n) (λ v. Ends-object_or v _)

  Ends-initial_of : (o : Option y.Node) → Ends (initial_of y o)
  Ends-initial_of none = ensured _ tt
  Ends-initial_of (some n) = Ends-value_at y trees n

  -- An endpoint, and what is made of it.
  Ensures-endpoint :
      {B : Type 0} {P : B → Type 0} (e : String) (f : String × String → Parsed B)
      → ((p : String × String) → IsEndpoint p → Ensures P (f p))
      → Ensures P (split_endpoint e >>= f)
  Ensures-endpoint e f k = Ensures-bind IsEndpoint _ f (split_endpoint-IsEndpoint e) k

  parse_edge-IsEdge :
      (inputs outputs : List (String × String)) (d : QueueConfig) (n : y.Node)
      → IsPositive d
      → Ensures IsEdge (parse_edge y inputs outputs d n)
  unfolding parse_edge
  parse_edge-IsEdge inputs outputs d n h =
      search
        (loader_rules, Ends-needs, Ensures-endpoint, Ensures-queue, Ends-initial_of, IsEdge-valid)
        depth 30

  pub parse_edges-IsEdge :
      (inputs outputs : List (String × String)) (d : QueueConfig) (o : Option y.Node)
      → IsPositive d
      → Ensures (All IsEdge) (parse_edges y inputs outputs d o)
  unfolding parse_edges
  parse_edges-IsEdge inputs outputs d none h = ensured [] tt
  parse_edges-IsEdge inputs outputs d (some n) h = Ensures-return_if _ _ _ (λ _.
      Ensures-each y IsEdge (parse_edge y inputs outputs d) (y.items n)
        (λ m. parse_edge-IsEdge inputs outputs d m h))
