-- ===== src/Tests/Observers.antt =====
-- Runs of the observers and of the sources of a runner.
use rk_avp.Prelude.{
  ℕ, ◌+◌, ◌≡◌, ◌≢◌, refl, true, false, List, [], ◌∷◌, none, some, pos, arith, string_keys,
  get_elem?,
}
use rk_avp.Prelude.Maps.{find, contains, assign}
use rk_avp.Status.{Status, is_ok, pass}
use rk_avp.Status
use rk_avp.Timestamp.{from_microseconds}
use rk_avp.Packet.{Packet, make, end_of_stream, no_event}
use rk_avp.Queue.{drop_oldest}
use rk_avp.Queue.Order.{run}
use rk_avp.ConfigValue
use rk_avp.Graph.{SourceSlotConfig}
use rk_avp.Runner.Observers.{ObserverRuntime, ObserverOptions, wait_for_output}
use rk_avp.Runner.Observers.Worker.{
  Event, arrives, takes, finishes, observe_all, as_queue, calls_of, heard, given_out,
  observe_all_refines,
}
use rk_avp.Runner.Observers.Worker
use rk_avp.Runner.Observers.Waits.{run_worker, stopped_worker_returns}
use rk_avp.Runner.Sources.{
  SourceTable, DrainState, enter_drain, release_token, decrease, enter_source, swap_sources,
  reset_sources,
}
use rk_avp.Runner.Restarts.{drained, finish_removing, begin_removing}
use rk_avp.Runner.Sources.Steps.{
  Step, enters, fails, receives, enters_drain, releases, begins_removing, removes,
  begins_restarting, restarts, swaps, resets, step_all, step,
}
use rk_avp.Runner.Sources.Counts.{IsCounted, count_active}
use rk_avp.Runner.Sources.Counting.{AllAllowed, step_all-IsCounted}
use rk_avp.Runner.Sources.Miscounts.{failed_start_miscounts, late_source_miscounts}
use rk_avp.Runner.Sources.Draining.{Flight, fly_all, count_tokens, IsHeld, fly, fly_all-IsHeld}
use rk_avp.Runner.Sources.Refusals.{removed_source_stays_drained}

abbrev frame : ℕ → Packet ℕ
frame n = make n (from_microseconds (pos n))

abbrev two_packets : ObserverOptions
two_packets = record {
  queue_capacity = 2;
  queue_policy = drop_oldest;
  observe_timestamp_bounds = false;
}

abbrev watcher : ObserverRuntime ℕ
watcher = record {
  stream = "out";
  options = two_packets;
  queue = frame 1 ∷ [];
  stopped = false;
  active = false;
  delivered = 0;
  waited = 0;
  dropped = 0;
}

abbrev events : List (Event ℕ)
events =
    arrives (frame 2)
    ∷ arrives (frame 3)
    ∷ takes
    ∷ finishes
    ∷ Worker.stops
    ∷ arrives (frame 4)
    ∷ takes
    ∷ []

observe_all_refines_example :
    (as_queue (observe_all watcher events).0 ≡ (run (as_queue watcher) (calls_of events)).after)
    × ((observe_all watcher events).1 ≡ given_out (as_queue watcher) events)
observe_all_refines_example = observe_all_refines watcher events (omega arith, refl)

abbrev cancelled_watcher : ObserverRuntime ℕ
cancelled_watcher = record watcher { stopped = true; queue = frame 1 ∷ frame 2 ∷ [] }

stopped_worker_returns_example :
    let (o, taken, ended) = run_worker 3 cancelled_watcher in
    (ended ≡ true)
    × (taken ≡ frame 1 ∷ frame 2 ∷ [])
    × (o.delivered ≡ 2 + 0)
    × (wait_for_output cancelled_watcher false ≢ none)
stopped_worker_returns_example = stopped_worker_returns 3 cancelled_watcher refl (omega arith)

abbrev camera_slot : SourceSlotConfig
camera_slot = record {
  name = "camera";
  input_stream = "in";
  subgraph_template = "camera.yaml";
  output_stream = "out";
}

abbrev no_sources : SourceTable
no_sources = record {
  source_slots = ("camera", camera_slot) ∷ [];
  graph_inputs = "in" ∷ [];
  sources = [];
  drains = [];
  active_sources = 0;
}

abbrev source_steps : List Step
source_steps =
    enters "camera" camera_slot "a" ConfigValue.null true
    ∷ fails "a" (Status.internal "no device")
    ∷ enters "camera" camera_slot "b" ConfigValue.null false
    ∷ receives "b" no_event (pos 3)
    ∷ enters_drain 1 "b"
    ∷ receives "b" end_of_stream (pos 4)
    ∷ begins_restarting "b"
    ∷ restarts "b" false 1 Status.ok
    ∷ begins_removing "b"
    ∷ releases 1
    ∷ removes "b" true ""
    ∷ swaps
    ∷ begins_removing "b"
    ∷ resets
    ∷ []

allowed : AllAllowed false no_sources source_steps
unfolding step enter_source find contains assign
allowed =
    (refl, (refl, (refl, (tt, (tt, (tt, (tt, (tt, (tt, (tt, (tt, (tt, (tt, (refl, refl))))))))))))))

step_all-IsCounted_example : IsCounted (step_all no_sources source_steps)
step_all-IsCounted_example = step_all-IsCounted no_sources source_steps allowed refl

none_found : find "a" no_sources.sources ≡ none
unfolding find
none_found = refl

failed_start_miscounts_example :
    let t = step_all no_sources (
      enters "camera" camera_slot "a" ConfigValue.null true
      ∷ receives "a" end_of_stream (pos 1)
      ∷ fails "a" (Status.internal "no device")
      ∷ []) in
    (count_active t.sources ≡ 0)
    × (t.active_sources ≡ decrease 0)
    × (◌≡◌ {A = ℕ} 0 0 → t.active_sources ≡ 18446744073709551615)
failed_start_miscounts_example =
    failed_start_miscounts no_sources "camera" camera_slot "a" ConfigValue.null (pos 1)
      (Status.internal "no device") refl none_found refl

late_source_miscounts_example :
    let t =
      reset_sources
        (enter_source (swap_sources no_sources) "camera" camera_slot "a" ConfigValue.null true).0 in
    (count_active t.sources ≡ 1)
    × (t.active_sources ≡ 0)
    × ((finish_removing t "a" true "").0.active_sources ≡ 18446744073709551615)
late_source_miscounts_example =
    late_source_miscounts no_sources "camera" camera_slot "a" ConfigValue.null ""

abbrev no_flight : Flight
no_flight = record { table = no_sources; tokens = [] }

-- A source whose packet is in flight, and steps after its removal has begun.
abbrev flying : Flight
flying =
    fly_all no_flight
      (enters "camera" camera_slot "a" ConfigValue.null true ∷ enters_drain 0 "a" ∷ [])

abbrev in_use : DrainState
in_use = record { accepting = true; in_flight = 1 }

abbrev landing : List Step
landing = enters_drain 0 "a" ∷ releases 0 ∷ []

abbrev leaving : List Step
leaving = enters_drain 0 "a" ∷ removes "a" true "" ∷ []

flying-IsHeld : IsHeld flying
flying-IsHeld =
    let steps = enters "camera" camera_slot "a" ConfigValue.null true ∷ enters_drain 0 "a" ∷ [] in
    (fly_all-IsHeld no_flight steps (λ d. refl)).0

removal_starts :
    ((begin_removing flying.table "a").1 ≡ pass 0)
    × (get_elem? flying.table.drains 0 ≡ some in_use)
    × (drained (fly_all (fly flying (begins_removing "a")) landing).table 0 false ≡ some true)
unfolding fly fly_all step enter_source enter_drain release_token begin_removing drained find
    contains assign
removal_starts = (refl, refl, refl)

removed_source_stays_drained_example :
    count_tokens 0 (fly_all (fly_all (fly flying (begins_removing "a")) landing) leaving).tokens ≡ 0
removed_source_stays_drained_example =
    removed_source_stays_drained flying "a" 0 in_use landing leaving flying-IsHeld
      (removal_starts.0) (removal_starts.1) (refl, (refl, tt)) (refl, (refl, tt)) (removal_starts.2)
