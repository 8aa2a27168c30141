-- ===== src/Runner/State.antt =====
-- The state of `GraphRunner` (include/rkavp/graph_runner.hpp) that its streams share, and the calls of
-- src/core/graph_runner.cpp that every operation makes: `SetError`, `CloseQueues`,
-- `BeginOperation`, `EndOperation`, `ExecutorFor`, `ScheduleEdge` and `ScheduleInput`. The time is
-- an argument. The callback for errors is the queue of its thread, or `none`.
use rk_avp.Prelude.{
  ℕ, suc, ◌+◌, ◌-◌, Bool, true, false, ◌||◌, not, List, [], ◌∷◌, ◌++◌, map, Option, none, some,
  String, if◌then◌else◌, string_keys, ℤ, get_elem?, set,
}
use rk_avp.Prelude.Maps.{find, assign}
use rk_avp.Status.{Status, is_ok}
use rk_avp.Status
use rk_avp.Packet.{Packet}
use rk_avp.Queue.{BoundedQueue, close}
use rk_avp.Graph.{EdgeConfig, GraphPortConfig}
use rk_avp.Scheduler.{Scheduler, post_guaranteed}
use rk_avp.Runner.Stream.{StreamState}
use rk_avp.Runner.Sync.{RuntimeNode}

-- The tasks that the runner posts.
pub data Task : Type 0 where
  drain_edge : ℕ → Task
  drain_input : String → Task

pub record EdgeRuntime (D : Type 0) : Type 0 where
  pub config : EdgeConfig
  pub queue : BoundedQueue (Packet D)
  pub scheduled : Bool
  pub stream : StreamState
  pub dropped : ℕ

-- `stream.closed` is `!open`.
pub record InputRuntime (D : Type 0) : Type 0 where
  pub config : GraphPortConfig
  pub queue : BoundedQueue (Packet D)
  pub scheduled : Bool
  pub stream : StreamState
  pub dropped : ℕ

pub record GraphRunner (D : Type 0) : Type 0 where
  pub running : Bool
  pub stopping : Bool
  pub cancelled : Bool
  pub active_operations : ℕ
  pub executors : List (String × Scheduler Task)
  pub nodes : List (String × RuntimeNode D)
  pub edges : List (EdgeRuntime D)
  pub routes : List (String × List ℕ)
  pub graph_inputs : List (String × InputRuntime D)
  pub open_inputs : List String
  pub open_source_nodes : List String
  pub active_sources : ℕ
  pub last_error : Status
  pub error_callback : Option (List Status)
  pub counters : List (String × ℕ)

abbrev notified : Status → Option (List Status) → Option (List Status)
notified s none = none
notified s (some queue) = some (queue ++ s ∷ [])

-- `counters_[name]`.
abbrev pub count_of : Option ℕ → ℕ
count_of none = 0
count_of (some n) = n

module _ {D : Type 0} where
  abbrev pub increment : String → ℕ → GraphRunner D → GraphRunner D
  increment name n r = record r {
    counters = assign name (count_of (find name r.counters) + n) r.counters;
  }

  abbrev pub close_input : String × InputRuntime D → String × InputRuntime D
  close_input (name, i) = (name, record i { queue = close i.queue })

  abbrev pub close_edge : EdgeRuntime D → EdgeRuntime D
  close_edge e = record e { queue = close e.queue }

  unfoldable pub close_queues : GraphRunner D → GraphRunner D
  close_queues r = record r {
    graph_inputs = map close_input r.graph_inputs;
    edges = map close_edge r.edges;
  }

  -- Only the first error counts.
  unfoldable pub set_error : Status → GraphRunner D → GraphRunner D
  unfolding close_queues
  set_error s r =
      if not (is_ok r.last_error)
      then r
      else close_queues (
          increment "graph.errors" 1 (record r {
            last_error = s;
            cancelled = true;
            error_callback = notified s r.error_callback;
          }))

  unfoldable pub cancel : GraphRunner D → GraphRunner D
  unfolding close_queues
  cancel r = close_queues (record r { cancelled = true })

  unfoldable pub begin_operation : GraphRunner D → Option (GraphRunner D)
  begin_operation r =
      if r.stopping || not r.running
      then none
      else some (record r { active_operations = suc r.active_operations })

  unfoldable pub end_operation : GraphRunner D → GraphRunner D
  end_operation r = record r { active_operations = r.active_operations - 1 }

  abbrev executor_of : GraphRunner D → Option (RuntimeNode D) → Option (String × Scheduler Task)
  executor_of r none = none
  executor_of r (some node) = elim (find node.executor r.executors) [
    | none ↦ none
    | some s ↦ some (node.executor, s)
  ]

  -- The executor's name with it.
  abbrev pub executor_for : GraphRunner D → String → Option (String × Scheduler Task)
  executor_for r node_id = executor_of r (find node_id r.nodes)

  -- `PostGuaranteed` on a node's executor.
  abbrev pub post_to :
      GraphRunner D → Option (String × Scheduler Task) → Task → ℤ → String → GraphRunner D × Status
  post_to r none task now missing = (r, Status.not_found missing)
  post_to r (some (name, s)) task now missing =
      let (s', status) = post_guaranteed s (some task) now in
      (record r { executors = assign name s' r.executors }, status)

  abbrev pub put_edge : ℕ → EdgeRuntime D → GraphRunner D → GraphRunner D
  put_edge i e r = record r { edges = set r.edges i e }

  abbrev pub put_input : String → InputRuntime D → GraphRunner D → GraphRunner D
  put_input name i r = record r { graph_inputs = assign name i r.graph_inputs }

  abbrev pub scheduled_edge : ℕ → EdgeRuntime D → GraphRunner D × Status → GraphRunner D
  scheduled_edge i e (r, status) =
      if is_ok status then r else set_error status (put_edge i (record e { scheduled = false }) r)

  abbrev pub schedule_edge_at : GraphRunner D → ℕ → Option (EdgeRuntime D) → ℤ → GraphRunner D
  schedule_edge_at r i none now = r
  schedule_edge_at r i (some e) now =
      if e.scheduled
      then r
      else scheduled_edge i e (
          post_to (put_edge i (record e { scheduled = true }) r) (executor_for r e.config.to_node)
            (drain_edge i) now "destination executor not found")

  -- An index that is out of range is not reached: `EnqueueEdge` and `DrainEdge` test it.
  unfoldable pub schedule_edge : GraphRunner D → ℕ → ℤ → GraphRunner D
  unfolding set_error
  schedule_edge r i now = schedule_edge_at r i (get_elem? r.edges i) now

  abbrev pub scheduled_input : String → InputRuntime D → GraphRunner D × Status → GraphRunner D
  scheduled_input name i (r, status) =
      if is_ok status
      then r
      else set_error status (put_input name (record i { scheduled = false }) r)

  abbrev pub schedule_input_at :
      GraphRunner D → String → Option (InputRuntime D) → ℤ → GraphRunner D
  schedule_input_at r name none now = r
  schedule_input_at r name (some i) now =
      if i.scheduled
      then r
      else scheduled_input name i (
          post_to (put_input name (record i { scheduled = true }) r) (executor_for r i.config.node)
            (drain_input name) now "input destination executor not found")

  unfoldable pub schedule_input : GraphRunner D → String → ℤ → GraphRunner D
  unfolding set_error
  schedule_input r name now = schedule_input_at r name (find name r.graph_inputs) now
