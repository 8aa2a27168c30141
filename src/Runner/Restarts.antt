-- ===== src/Runner/Restarts.antt =====
-- `RemoveSourceImpl` and `RestartSourceImpl` of src/core/graph_runner.cpp. Each part under a lock is a
-- step; a wait for the packets in flight is `drained`.
use rk_avp.Prelude.{
  ℕ, suc, Bool, true, false, Option, none, some, String, get_elem?, set, if◌then◌else◌, string_keys,
  ◌==◌,
}
use rk_avp.Prelude.Maps.{find}
use rk_avp.Status.{Status, Result, pass, fail, is_ok, ◌+s◌}
use rk_avp.Status
use rk_avp.Runner.Sources.{
  DrainState, SourceRuntime, SourceTable, ended_source, erase_source, increase, put_source,
  with_state,
}
use rk_avp.Runner.Sources.{connecting, stalled, reconnecting, eos, failed}

abbrev pub refuse_at : SourceTable → ℕ → Option DrainState → Bool → SourceTable
refuse_at t drain none accepting = t
refuse_at t drain (some d) accepting = record t {
  drains = set t.drains drain (record d { accepting = accepting });
}

abbrev pub set_accepting : SourceTable → ℕ → Bool → SourceTable
set_accepting t drain accepting = refuse_at t drain (get_elem? t.drains drain) accepting

abbrev pub begin_removing_at : SourceTable → String → Option SourceRuntime → SourceTable × Result ℕ
begin_removing_at t id none = (t, fail (Status.not_found ("source not found: " +s id)))
begin_removing_at t id (some s) =
    (set_accepting (put_source id (with_state eos s) t) s.drain false, pass s.drain)

-- `RemoveSourceImpl` up to its wait on the drain state, which it answers with.
unfoldable pub begin_removing : SourceTable → String → SourceTable × Result ℕ
begin_removing t id = begin_removing_at t id (find id t.sources)

abbrev pub in_flight_of : Option DrainState → ℕ
in_flight_of none = 0
in_flight_of (some d) = d.in_flight

-- The wait ends when nothing is in flight, or by its timeout; `none` is asleep.
unfoldable pub drained : SourceTable → ℕ → Bool → Option Bool
drained t drain timed_out =
    if in_flight_of (get_elem? t.drains drain) == 0
    then some true
    else if timed_out
    then some false
    else none

-- The message of a timeout is `message`, since it spells a number.
abbrev pub stalled_at : SourceTable → String → Option SourceRuntime → String → SourceTable
stalled_at t id none message = t
stalled_at t id (some s) message =
    put_source id (record s { health = record s.health { state = stalled; message = message } }) t

abbrev pub erased_at : SourceTable → String → Option SourceRuntime → SourceTable
erased_at t id none = t
erased_at t id (some s) = record (ended_source s t) { sources = erase_source id t.sources }

-- `RemoveSourceImpl` after the wait.
unfoldable pub finish_removing : SourceTable → String → Bool → String → SourceTable × Status
finish_removing t id completed message =
    if completed then (erased_at t id (find id t.sources), Status.ok) else (
      stalled_at t id (find id t.sources) message,
      Status.unavailable ("source drain timed out: " +s id),
    )

abbrev pub begin_restarting_at :
    SourceTable → String → Option SourceRuntime → SourceTable × Result (Bool × ℕ)
begin_restarting_at t id none = (t, fail (Status.not_found ("source not found: " +s id)))
begin_restarting_at t id (some s) = (
  put_source id
      (record s {
        health = record s.health {
          state = reconnecting;
          reconnect_count = suc s.health.reconnect_count;
        };
      })
      t,
  pass (s.has_subgraph, s.drain),
)

-- `RestartSourceImpl` up to the subgraph's `Stop` and `Start`.
unfoldable pub begin_restarting : SourceTable → String → SourceTable × Result (Bool × ℕ)
begin_restarting t id = begin_restarting_at t id (find id t.sources)

abbrev pub finish_restarting_at :
    SourceTable → String → Option SourceRuntime → Bool → ℕ → Status → SourceTable × Status
finish_restarting_at t id none has_subgraph drain started =
    (t, Status.cancelled "source was removed during restart")
finish_restarting_at t id (some s) has_subgraph drain started =
    if is_ok started
    then (
      set_accepting
          (put_source id
            (with_state (if has_subgraph then connecting else reconnecting)
              (record s { active = true }))
            (record t {
              active_sources = if s.active then t.active_sources else increase t.active_sources;
            }))
          drain true,
      started,
    )
    else (
      put_source id
          (record s { health = record s.health { state = failed; message = started.message } }) t,
      started,
    )

-- `RestartSourceImpl` after `Start`, which is ok where there is no subgraph.
unfoldable pub finish_restarting : SourceTable → String → Bool → ℕ → Status → SourceTable × Status
finish_restarting t id has_subgraph drain started =
    finish_restarting_at t id (find id t.sources) has_subgraph drain started
