-- ===== src/Tests/Lifetimes.antt =====
-- Starts, stops and emissions of a runner with two nodes, for src/core/graph_runner.cpp.
use rk_avp.Prelude.{
  ℕ, ◌≡◌, refl, false, List, [], ◌∷◌, some, String, pos, string_keys, nat_keys, if◌then◌else◌, ◌=?◌,
  length,
}
use rk_avp.Prelude.Names.{member, remove}
use rk_avp.Prelude.Maps.{find, assign, contains, emplace}
use rk_avp.Prelude.Counts.{occurrences}
use rk_avp.Status.{Status, is_ok}
use rk_avp.Status
use rk_avp.Timestamp.{from_microseconds}
use rk_avp.Packet.{Packet, make}
use rk_avp.Queue.{drop_oldest, make_queue, close}
use rk_avp.MediaCaps.{
  compatible_with, kinds_clash, formats_clash, sizes_clash, has_memory, share_memory,
}
use rk_avp.ConfigValue.{ConfigValue}
use rk_avp.Node.Contract.{find_port, validate_options, check_required}
use rk_avp.Graph.{GraphConfig}
use rk_avp.Graph.Acyclic.{find_cycle, visit, visit_roots, visit_each, leave, adjacent}
use rk_avp.Graph.Validation.{
  validate, add_executors, add_nodes, check_node, check_edges, check_edge, check_inputs,
  check_slots, validate_ports, validate_acyclic,
}
use rk_avp.Scheduler
use rk_avp.Scheduler.{make_scheduler}
use rk_avp.Runner.State.{set_error, close_queues, begin_operation, end_operation}
use rk_avp.Runner.Observers.{
  ObserverRuntime, ObserverOptions, add_observer, new_observer, no_observers, is_among,
}
use rk_avp.Runner.Emission.{emit_outputs, streams_of}
use rk_avp.Runner.Emission.Reaches.{
  Event, observes, after, react, react_all, hear_times, emit_outputs_reaches,
}
use rk_avp.Runner.Tables.{new_edge, build_edges, build_inputs, build_outputs, build_slots}
use rk_avp.Runner.Tables.Routes.{AreRoutes, build_edges_lem}
use rk_avp.Runner.Lifetime.{NodeClasses, begin_stop, end_stop, finish_stop, stop_with, unwind}
use rk_avp.Runner.Starting.{
  start, begin_start, start_executors, start_control, create_nodes, add_node, build_tables,
  set_side_packets, start_nodes, enqueue_initial,
}
use rk_avp.Runner.Starting.Balance.{tally, configured, closed}
use rk_avp.Runner.Starting.Started.{IsLawful}
use rk_avp.Runner.Starting.Runs.{
  Transition, starts_with, begins_stop, ends_stop, begins_operation, ends_operation, change,
  run_life, new_lifetime, run_life_closes,
}
use rk_avp.Tests.Graphs.{config, link, types}
use rk_avp.Tests.Runners.{runner}

-- Every node starts, save the one of that name.
abbrev classes : String → NodeClasses ℕ
classes bad = record {
  create = λ type. find type types;
  on_configure = λ id. Status.ok;
  on_open = λ id. Status.ok;
  on_start = λ id r. (r, if id =? bad then Status.internal "no device" else Status.ok);
}

classes-IsLawful : (bad : String) → IsLawful (classes bad)
unfolding IsLawful
classes-IsLawful bad id r = ((λ j h. h), refl)

abbrev chain : GraphConfig
chain = config (link "a" "b" ∷ [])

abbrev payload : ConfigValue → ℕ
payload value = 0

abbrev life : List (Transition ℕ)
life =
    starts_with (some types) (classes "b") chain (pos 0)
    ∷ starts_with (some types) (classes "") chain (pos 5)
    ∷ begins_operation
    ∷ begins_stop
    ∷ ends_operation
    ∷ ends_stop
    ∷ []

life_ends :
    ((run_life payload (new_lifetime runner []) life).runner.running ≡ false)
    × ((run_life payload (new_lifetime runner []) life).runner.stopping ≡ false)
    × (length (run_life payload (new_lifetime runner []) life).calls ≡ 24)
unfolding validate add_executors add_nodes check_edges check_inputs check_slots validate_ports
    validate_acyclic find_cycle find contains emplace assign find_port validate_options
    check_required compatible_with kinds_clash formats_clash sizes_clash has_memory share_memory
    visit visit_roots visit_each leave check_node check_edge adjacent member remove run_life change
    start begin_start start_executors start_control create_nodes add_node build_tables
    set_side_packets start_nodes enqueue_initial begin_stop end_stop finish_stop stop_with unwind
    make_scheduler Scheduler.start Scheduler.stop set_error close_queues close new_lifetime
    begin_operation end_operation build_edges build_inputs build_outputs build_slots make_queue
life_ends = (refl, refl, refl)

run_life_closes_example :
    let l = run_life payload (new_lifetime runner []) life in
    (l.runner.nodes ≡ [])
    × (l.runner.executors ≡ [])
    × ((id : String) → tally (configured id) l.calls ≡ tally (closed id) l.calls)
run_life_closes_example =
    run_life_closes payload runner [] life
      (classes-IsLawful "b", (classes-IsLawful "", (tt, (tt, (tt, (tt, tt)))))) life_ends.0
      life_ends.1

build_edges_lem_example :
    let cs = link "a" "b" ∷ link "a" "c" ∷ [] in
    let (edges, routes) = build_edges {D = ℕ} cs [] [] in
    (edges ≡ new_edge (link "a" "b") ∷ new_edge (link "a" "c") ∷ []) × AreRoutes cs routes
build_edges_lem_example = build_edges_lem (link "a" "b" ∷ link "a" "c" ∷ [])

abbrev last_two : ObserverOptions
last_two = record {
  queue_capacity = 2;
  queue_policy = drop_oldest;
  observe_timestamp_bounds = false;
}

abbrev sent : Packet ℕ
sent = make 7 (from_microseconds (pos 3))

abbrev outputs : List (String × List String)
outputs = ("b.out", "screen" ∷ "file" ∷ []) ∷ []

abbrev events : List (Event ℕ)
events = observes "screen" last_two ∷ observes "sound" last_two ∷ []

abbrev first_observer : ObserverRuntime ℕ
first_observer = record {
  stream = "screen";
  options = last_two;
  queue = [];
  stopped = false;
  active = false;
  delivered = 0;
  waited = 0;
  dropped = 0;
}

first_found : find 1 (after runner outputs events).table.runtimes ≡ some first_observer
unfolding react_all react add_observer new_observer no_observers assign find
first_found = refl

emit_outputs_reaches_example :
    let e = after runner outputs events in
    find 1 (emit_outputs e "b" "b.out" sent).table.runtimes
    ≡ some (
        hear_times sent
          (if is_among 1 e.table.observer_handles
            then occurrences "screen" (streams_of (find "b.out" e.graph_outputs))
            else 0)
          first_observer)
emit_outputs_reaches_example =
    emit_outputs_reaches runner outputs events "b" "b.out" sent 1 first_observer first_found
