-- ===== src/Runner/Observers.antt =====
-- The observers of a runner (include/rkavp/graph_runner.hpp, src/core/graph_runner.cpp): one
-- `ObserverRuntime` with its worker, and the tables that name them. The runtimes are shared objects
-- and stand in a store by their number, which `ObserverHandle` carries. Each part under a lock is a
-- step; `none` is a thread that waits. The callback is not part of the model: `finish_packet` is
-- what the worker does after it, whether it threw or not, and the callback and the handle's place
-- are given.
pub mod Worker
pub mod Waits
use rk_avp.Prelude.{
  ℕ, suc, ◌+◌, ◌<◌, Bool, true, false, ◌&&◌, ◌||◌, not, List, [], ◌∷◌, ◌++◌, map, filter, Option,
  none, some, String, ltb, leb, ◌==◌, if◌then◌else◌, ◌=?◌, string_keys, nat_keys, length, any, rest,
}
use rk_avp.Prelude.Maps.{find, assign, erase}
use rk_avp.Status.{Status, ◌+s◌}
use rk_avp.Status
use rk_avp.Queue.{QueuePolicy, drop_oldest, drop_newest, block}
use rk_avp.Packet.{Packet}
use rk_avp.Graph.{GraphConfig, GraphPortConfig}

pub record ObserverOptions : Type 0 where
  pub queue_capacity : ℕ
  pub queue_policy : QueuePolicy
  pub observe_timestamp_bounds : Bool

pub record ObserverRuntime (D : Type 0) : Type 0 where
  pub stream : String
  pub options : ObserverOptions
  pub queue : List (Packet D)
  pub stopped : Bool
  pub active : Bool
  pub delivered : ℕ
  pub waited : ℕ
  pub dropped : ℕ

abbrev pub default_options : ObserverOptions
default_options = record {
  queue_capacity = 64;
  queue_policy = drop_oldest;
  observe_timestamp_bounds = false;
}

-- What `ObserveOutput` takes from the configuration when it is given no options.
abbrev pub configured_options : GraphConfig → ObserverOptions
configured_options config = record {
  queue_capacity = config.flow_control.observer_queue.capacity;
  queue_policy = config.flow_control.observer_queue.policy;
  observe_timestamp_bounds = config.flow_control.observe_timestamp_bounds;
}

abbrev pub is_blocking : QueuePolicy → Bool
is_blocking block = true
is_blocking _ = false

abbrev pub keeps_oldest : QueuePolicy → Bool
keeps_oldest drop_newest = true
keeps_oldest _ = false

module _ {D : Type 0} where
  unfoldable pub new_observer : String → ObserverOptions → ObserverRuntime D
  new_observer stream options = record {
    stream = stream;
    options = options;
    queue = [];
    stopped = false;
    active = false;
    delivered = 0;
    waited = 0;
    dropped = 0;
  }

  -- The flag says that a packet was dropped, which is counted in the metrics.
  unfoldable pub enqueue_observer : ObserverRuntime D → Packet D → ObserverRuntime D × Bool
  enqueue_observer o p =
      if o.stopped
      then (o, false)
      else if leb o.options.queue_capacity (length o.queue)
      then (if keeps_oldest o.options.queue_policy
          then (record o { dropped = suc o.dropped }, true)
          else (record o { dropped = suc o.dropped; queue = rest o.queue ++ p ∷ [] }, true))
      else (record o { queue = o.queue ++ p ∷ [] }, false)

  -- The worker takes a packet, or returns when there is none left and the observer has stopped.
  unfoldable pub take_packet : ObserverRuntime D → Option (ObserverRuntime D × Option (Packet D))
  take_packet o = elim o.queue [
    | [] ↦ if o.stopped then some (o, none) else none
    | p ∷ ps ↦ some (record o { queue = ps; active = true }, some p)
  ]

  unfoldable pub finish_packet : ObserverRuntime D → ObserverRuntime D
  finish_packet o = record o { active = false; delivered = suc o.delivered }

  unfoldable pub stop_observer : ObserverRuntime D → ObserverRuntime D
  stop_observer o = record o { stopped = true }

  -- `WaitForObservedOutput` under the observer's lock: `timed_out` is what a timed wait came to.
  unfoldable pub wait_for_output : ObserverRuntime D → Bool → Option (ObserverRuntime D × Status)
  wait_for_output o timed_out =
      if not (o.stopped || ltb o.waited o.delivered)
      then (if timed_out
          then some (o, Status.unavailable "wait for observed output timed out")
          else none)
      else if ltb o.waited o.delivered
      then some (record o { waited = o.delivered }, Status.ok)
      else some (o, Status.cancelled "observer was cancelled")

-- The observers that the runner knows: those that a stream's packets go to, those with a handle,
-- and those that cancelled themselves from their own thread.
pub record ObserverTable (D : Type 0) : Type 0 where
  pub next_observer_id : ℕ
  pub runtimes : List (ℕ × ObserverRuntime D)
  pub observers : List (String × List ℕ)
  pub observer_handles : List ℕ
  pub retired_observers : List ℕ

abbrev pub ids_of : Option (List ℕ) → List ℕ
ids_of none = []
ids_of (some ids) = ids

abbrev pub is_among : ℕ → List ℕ → Bool
is_among id ids = any (λ other. other == id) ids

-- `erase(remove(ids, id))`.
abbrev pub without : ℕ → List ℕ → List ℕ
without id ids = filter (λ other. not (other == id)) ids

-- `ObserveOutput` up to the new runtime: an empty callback and a null handle are given as flags.
unfoldable pub check_observer : GraphConfig → String → ObserverOptions → Bool → Bool → Status
check_observer config stream options has_callback has_handle =
    if not has_callback
    then Status.invalid "output callback is empty"
    else if not has_handle
    then Status.invalid "observer handle output is null"
    else if options.queue_capacity == 0
    then Status.invalid "observer queue capacity must be positive"
    else if is_blocking options.queue_policy
    then Status.invalid (
        "observer queue policy cannot be block because callbacks must not stall graph"
        +s " executors")
    else if not (any (λ (o : GraphPortConfig). o.name =? stream) config.outputs)
    then Status.not_found ("graph output stream not found: " +s stream)
    else Status.ok

module _ {D : Type 0} where
  unfoldable pub no_observers : ObserverTable D
  no_observers = record {
    next_observer_id = 1;
    runtimes = [];
    observers = [];
    observer_handles = [];
    retired_observers = [];
  }

  unfoldable pub add_observer : ObserverTable D → String → ObserverOptions → ObserverTable D × ℕ
  unfolding new_observer
  add_observer t stream options =
      let id = t.next_observer_id in
      (
        record t {
          next_observer_id = suc id;
          runtimes = assign id (new_observer stream options) t.runtimes;
          observers = assign stream (ids_of (find stream t.observers) ++ id ∷ []) t.observers;
          observer_handles = t.observer_handles ++ id ∷ [];
        },
        id,
      )

  -- What a handle stands for: an entry of `observer_handles_`.
  abbrev pub handled : ObserverTable D → ℕ → Option (ObserverRuntime D)
  handled t id = if is_among id t.observer_handles then find id t.runtimes else none

  abbrev pub put_observer : ℕ → ObserverRuntime D → ObserverTable D → ObserverTable D
  put_observer id o t = record t { runtimes = assign id o t.runtimes }

  abbrev pub cancel_found :
      ObserverTable D → ℕ → Option (ObserverRuntime D) → Bool → ObserverTable D × Status
  cancel_found t id none from_callback = (t, Status.not_found "observer handle not found")
  cancel_found t id (some o) from_callback = (
    record t {
      observer_handles = without id t.observer_handles;
      observers = assign o.stream (without id (ids_of (find o.stream t.observers))) t.observers;
      runtimes = assign id (stop_observer o) t.runtimes;
      retired_observers =
          if from_callback then t.retired_observers ++ id ∷ [] else t.retired_observers;
    },
    Status.ok,
  )

  -- `from_callback` is a call from the observer's own thread, which is not joined.
  unfoldable pub cancel_observer : ObserverTable D → ℕ → Bool → ObserverTable D × Status
  unfolding stop_observer
  cancel_observer t id from_callback = cancel_found t id (handled t id) from_callback

  abbrev pub stop_each : List ℕ → List (ℕ × ObserverRuntime D) → List (ℕ × ObserverRuntime D)
  stop_each [] runtimes = runtimes
  stop_each (id ∷ ids) runtimes =
      stop_each ids (elim (find id runtimes) [
        | none ↦ runtimes
        | some o ↦ assign id (stop_observer o) runtimes
      ])

  -- `ShutdownObservers`, before the workers are joined.
  unfoldable pub shutdown_observers : ObserverTable D → ObserverTable D
  unfolding stop_observer
  shutdown_observers t = record t {
    runtimes = stop_each (t.observer_handles ++ t.retired_observers) t.runtimes;
    observers = [];
    observer_handles = [];
    retired_observers = [];
  }
