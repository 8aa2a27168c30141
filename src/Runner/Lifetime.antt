-- ===== src/Runner/Lifetime.antt =====
-- `Start` and `Stop` of src/core/graph_runner.cpp. The node classes are given: what they answer, and
-- what the start of a node does to the runner. `calls` is the history of the calls of the nodes. A
-- `Stop` that waits for operations to end is in two parts, `begin_stop` and `end_stop`; the sources,
-- which it takes away in between, are in Runner/Sources. A control task is its number.
use rk_avp.Prelude.{
  ℕ, Bool, true, false, ◌&&◌, ◌||◌, not, List, [], ◌∷◌, ◌++◌, map, Option, none, some, String, ◌==◌,
  if◌then◌else◌, string_keys, is_empty,
}
use rk_avp.Prelude.Maps.{contains}
use rk_avp.Status.{Status}
use rk_avp.Packet.{Packet}
use rk_avp.Node.Contract.{NodeContract}
use rk_avp.Graph.{SourceSlotConfig}
use rk_avp.Scheduler.{Scheduler, make_scheduler}
use rk_avp.Scheduler
use rk_avp.Runner.Sync.{RuntimeNode}
use rk_avp.Runner.State.{GraphRunner, close_queues}

-- A call of a node.
pub data Call : Type 0 where
  configures opens starts asks_to_stop stops closes : String → Call

-- `create` is the registry's, with the contract of what it makes.
pub record NodeClasses (D : Type 0) : Type 0 where
  pub create : String → Option NodeContract
  pub on_configure : String → Status
  pub on_open : String → Status
  pub on_start : String → GraphRunner D → GraphRunner D × Status

pub record Lifetime (D : Type 0) : Type 0 where
  pub runner : GraphRunner D
  pub control_executor : Option (Scheduler ℕ)
  pub lifecycle_order : List String
  pub graph_outputs : List (String × List String)
  pub source_slots : List (String × SourceSlotConfig)
  pub side_packets : List (String × Packet D)
  pub calls : List Call

-- A call of `Start` or `Stop`: `none` is one that waits.
pub record Changed (D : Type 0) : Type 0 where
  pub lifetime : Lifetime D
  pub answer : Option Status

abbrev pub stop_control : Option (Scheduler ℕ) → Option (Scheduler ℕ)
stop_control none = none
stop_control (some s) = some (Scheduler.stop s false)

module _ {D : Type 0} where
  abbrev pub put_runner : GraphRunner D → Lifetime D → Lifetime D
  put_runner r l = record l { runner = r }

  abbrev pub call_each : (String → Call) → List (String × RuntimeNode D) → List Call
  call_each call [] = []
  call_each call ((id, node) ∷ nodes) = call id ∷ call_each call nodes

  -- The loop from `rbegin` to `rend` over the order in which the nodes came.
  unfoldable pub unwind : (String → Call) → List (String × RuntimeNode D) → List String → List Call
  unwind call nodes [] = []
  unwind call nodes (id ∷ ids) =
      unwind call nodes ids ++ (if contains id nodes then call id ∷ [] else [])

  -- Whether there is anything to stop.
  abbrev pub is_up : GraphRunner D → Bool
  is_up r = r.running || not (is_empty r.nodes && is_empty r.executors)

  -- Up to the wait for the operations.
  unfoldable pub begin_stop : Lifetime D → Lifetime D
  unfolding close_queues
  begin_stop l =
      let r = record l.runner { running = false; stopping = true; cancelled = true } in
      let closed = close_queues r in
      record l {
        runner = record closed {
          executors = map (λ x. (x.0, Scheduler.stop x.1 true)) closed.executors;
        };
        control_executor = stop_control l.control_executor;
        calls = l.calls ++ call_each asks_to_stop l.runner.nodes;
      }

  -- After the wait.
  unfoldable pub end_stop : Lifetime D → Lifetime D
  unfolding unwind
  end_stop l = record l {
    calls =
        (l.calls ++ unwind stops l.runner.nodes l.lifecycle_order)
        ++ unwind closes l.runner.nodes l.lifecycle_order;
    runner = record l.runner {
      nodes = [];
      edges = [];
      routes = [];
      graph_inputs = [];
      open_inputs = [];
      open_source_nodes = [];
      active_sources = 0;
      executors = [];
      stopping = false;
    };
    graph_outputs = [];
    lifecycle_order = [];
    control_executor = none;
  }

  -- The wait itself: `none` while an operation is under way.
  unfoldable pub finish_stop : Lifetime D → Option (Lifetime D)
  unfolding end_stop
  finish_stop l = if l.runner.active_operations == 0 then some (end_stop l) else none

  abbrev pub answer_stop : Lifetime D → Option (Lifetime D) → Status → Changed D
  answer_stop waiting none status = record { lifetime = waiting; answer = none }
  answer_stop waiting (some l) status = record { lifetime = l; answer = some status }

  -- `Stop`, and then the status that the caller returns.
  unfoldable pub stop_with : Lifetime D → Status → Changed D
  unfolding begin_stop finish_stop
  stop_with l status =
      if l.runner.stopping
      then record { lifetime = l; answer = none }
      else if not (is_up l.runner)
      then record { lifetime = l; answer = some status }
      else answer_stop (begin_stop l) (finish_stop (begin_stop l)) status
