-- ===== src/Runner/Tables.antt =====
-- The tables that `Start` of src/core/graph_runner.cpp builds from the configuration: the edges with
-- their routes, the graph inputs, the graph outputs and the slots for sources.
pub mod Routes
use rk_avp.Prelude.{
  ℕ, Bool, true, false, List, [], ◌∷◌, ◌++◌, Option, none, some, String, string_keys, length,
  if◌then◌else◌,
}
use rk_avp.Prelude.Maps.{find, assign, emplace}
use rk_avp.Prelude.Names.{member}
use rk_avp.Status.{◌+s◌}
use rk_avp.Queue.{make_queue}
use rk_avp.Graph.{EdgeConfig, GraphPortConfig, SourceSlotConfig}
use rk_avp.Runner.Stream.{new_stream}
use rk_avp.Runner.State.{EdgeRuntime, InputRuntime}
use rk_avp.Runner.Edges.{edge_stream}
use rk_avp.Runner.Observers.{ids_of}
use rk_avp.Runner.Emission.{streams_of}

-- `insert` into a set of names.
abbrev pub insert : String → List String → List String
insert name names = if member name names then names else names ++ name ∷ []

module _ {D : Type 0} where
  abbrev pub new_edge : EdgeConfig → EdgeRuntime D
  new_edge c = record {
    config = c;
    queue = make_queue c.queue.capacity c.queue.policy;
    scheduled = false;
    stream = new_stream;
    dropped = 0;
  }

  unfoldable pub build_edges :
      List EdgeConfig
      → List (EdgeRuntime D)
      → List (String × List ℕ)
      → List (EdgeRuntime D) × List (String × List ℕ)
  build_edges [] edges routes = (edges, routes)
  build_edges (c ∷ cs) edges routes =
      let route = ids_of (find (edge_stream c) routes) in
      build_edges cs (edges ++ new_edge c ∷ [])
        (assign (edge_stream c) (route ++ length edges ∷ []) routes)

  abbrev pub new_input : GraphPortConfig → InputRuntime D
  new_input c = record {
    config = c;
    queue = make_queue c.queue.capacity c.queue.policy;
    scheduled = false;
    stream = new_stream;
    dropped = 0;
  }

  unfoldable pub build_inputs :
      List GraphPortConfig
      → List (String × InputRuntime D)
      → List String
      → List (String × InputRuntime D) × List String
  build_inputs [] inputs open_inputs = (inputs, open_inputs)
  build_inputs (c ∷ cs) inputs open_inputs =
      build_inputs cs (emplace c.name (new_input c) inputs).0 (insert c.name open_inputs)

unfoldable pub build_outputs :
    List GraphPortConfig → List (String × List String) → List (String × List String)
build_outputs [] outputs = outputs
build_outputs (c ∷ cs) outputs =
    let endpoint = c.node +s "." +s c.port in
    build_outputs cs (assign endpoint (streams_of (find endpoint outputs) ++ c.name ∷ []) outputs)

unfoldable pub build_slots :
    List SourceSlotConfig → List (String × SourceSlotConfig) → List (String × SourceSlotConfig)
build_slots [] slots = slots
build_slots (c ∷ cs) slots = build_slots cs (assign c.name c slots)
