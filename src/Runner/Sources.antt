-- ===== src/Runner/Sources.antt =====
-- The dynamic sources of a runner (src/core/graph_runner.cpp): `AddSourceImpl`, `AddSourcePacket`,
-- `ListSources`, `GetSourceHealth` and the part of `Stop` that takes the sources away. Each part under a lock is a step. A `DrainState` is shared by a
-- source and its packets, and outlives the source: they stand in a store by their place. The
-- source's subgraph is another runner, and the statuses of its `Start` are arguments.
-- `active_sources_` is a 64-bit counter.
pub mod Steps
pub mod Counts
pub mod Counting
pub mod Miscounts
pub mod Refusals
pub mod Draining
use rk_avp.Prelude.{
  ℕ, suc, ◌+◌, ◌-◌, ◌%◌, Bool, true, false, not, List, [], ◌∷◌, ◌++◌, map, Option, none, some,
  String, ℤ, pos, length, get_elem?, set, if◌then◌else◌, ◌=?◌, string_keys, ◌==◌,
}
use rk_avp.Prelude.Maps.{find, assign, contains, is_some}
use rk_avp.Prelude.Names.{member}
use rk_avp.Status.{Status, Result, pass, fail, is_ok, ◌+s◌}
use rk_avp.Status
use rk_avp.Packet.{
  Packet, ControlEvent, MetadataValue, is_end_of_stream, is_timestamp_bound, add_lifetime_token,
  set_metadata,
}
use rk_avp.Packet
use rk_avp.ConfigValue.{ConfigValue}
use rk_avp.Graph.{SourceSlotConfig}

-- include/rkavp/runtime_info.hpp.
pub data StreamHealthState : Type 0 where
  connecting streaming stalled reconnecting eos failed stopped : StreamHealthState

pub record StreamHealth : Type 0 where
  pub state : StreamHealthState
  pub last_packet_time_us : ℤ
  pub reconnect_count : ℕ
  pub dropped_packets : ℕ
  pub message : String

pub record SourceInfo : Type 0 where
  pub slot : String
  pub source_id : String
  pub health : StreamHealth

pub record DrainState : Type 0 where
  pub in_flight : ℕ
  pub accepting : Bool

-- `drain` is the place of the `DrainState`; `has_subgraph` is a pointer that is not null.
pub record SourceRuntime : Type 0 where
  pub slot : String
  pub input_stream : String
  pub source_id : String
  pub options : ConfigValue
  pub health : StreamHealth
  pub has_subgraph : Bool
  pub drain : ℕ
  pub active : Bool

-- `graph_inputs` is the names of the streams.
pub record SourceTable : Type 0 where
  pub source_slots : List (String × SourceSlotConfig)
  pub graph_inputs : List String
  pub sources : List (String × SourceRuntime)
  pub drains : List DrainState
  pub active_sources : ℕ

abbrev pub new_health : StreamHealth
new_health = record {
  state = stopped;
  last_packet_time_us = pos 0;
  reconnect_count = 0;
  dropped_packets = 0;
  message = "";
}

abbrev pub new_drain : DrainState
new_drain = record { in_flight = 0; accepting = true }

-- `++` and `--` on a 64-bit unsigned counter.
abbrev pub increase : ℕ → ℕ
increase n = (n + 1) % 18446744073709551616

abbrev pub decrease : ℕ → ℕ
decrease n = (n + 18446744073709551615) % 18446744073709551616

-- The entry of a key that is there once.
unfoldable pub erase_source : String → List (String × SourceRuntime) → List (String × SourceRuntime)
erase_source k [] = []
erase_source k ((j, s) ∷ m) = let kept = erase_source k m in if j =? k then m else (j, s) ∷ kept

abbrev pub put_source : String → SourceRuntime → SourceTable → SourceTable
put_source id s t = record t { sources = assign id s t.sources }

abbrev pub with_state : StreamHealthState → SourceRuntime → SourceRuntime
with_state state s = record s { health = record s.health { state = state } }

-- `AddSourceImpl` up to the template: the slot's configuration.
abbrev pub slot_config_of : SourceTable → String → Option SourceSlotConfig → Result SourceSlotConfig
slot_config_of t slot none = fail (Status.not_found ("source slot not found: " +s slot))
slot_config_of t slot (some config) =
    if member config.input_stream t.graph_inputs
    then pass config
    else fail (Status.not_found ("source slot input stream not found: " +s config.input_stream))

unfoldable pub check_slot : SourceTable → String → String → Result SourceSlotConfig
check_slot t slot source_id =
    if source_id =? ""
    then fail (Status.invalid "source id is required")
    else slot_config_of t slot (find slot t.source_slots)

-- The part of `AddSourceImpl` under `source_mutex_`, with the template's subgraph built.
unfoldable pub enter_source :
    SourceTable → String → SourceSlotConfig → String → ConfigValue → Bool → SourceTable × Status
enter_source t slot config source_id options has_subgraph =
    if contains source_id t.sources
    then (t, Status.already_exists ("source already exists: " +s source_id))
    else (
      record t {
        sources =
            assign source_id
              (record {
                slot = slot;
                input_stream = config.input_stream;
                source_id = source_id;
                options = options;
                health = record new_health { state = connecting };
                has_subgraph = has_subgraph;
                drain = length t.drains;
                active = true;
              })
              t.sources;
        drains = t.drains ++ new_drain ∷ [];
        active_sources = increase t.active_sources;
      },
      Status.ok,
    )

-- The end of `AddSourceImpl`, with what `Start` of the subgraph answered.
unfoldable pub finish_adding : SourceTable → String → Status → SourceTable × Status
finish_adding t source_id started = if is_ok started then (t, Status.ok) else (
  record t {
    sources = erase_source source_id t.sources;
    active_sources = decrease t.active_sources;
  },
  Status.internal ("source subgraph start failed: " +s started.message),
)

-- What `AddSourcePacket` goes on to do after its part under `source_mutex_`: it enters the packet
-- into the drain state for the input stream, or returns.
pub data Received : Type 0 where
  enters : ℕ → String → Received
  returns : Status → Received

abbrev pub ended_source : SourceRuntime → SourceTable → SourceTable
ended_source s t = record t {
  active_sources = if s.active then decrease t.active_sources else t.active_sources;
}

abbrev pub receive_at :
    SourceTable → String → Option SourceRuntime → ControlEvent → ℤ → SourceTable × Received
receive_at t id none event now = (t, returns (Status.not_found ("source not found: " +s id)))
receive_at t id (some s) event now =
    if is_end_of_stream event
    then (
      put_source id (with_state eos (record s { active = false })) (ended_source s t),
      returns Status.ok,
    )
    else if is_timestamp_bound event
    then (t, returns Status.ok)
    else (
      put_source id
          (record s { health = record s.health { state = streaming; last_packet_time_us = now } })
          t,
      enters s.drain s.input_stream,
    )

unfoldable pub receive : SourceTable → String → ControlEvent → ℤ → SourceTable × Received
receive t id event now = receive_at t id (find id t.sources) event now

-- The place is there: it comes from a source.
abbrev pub enter_at : SourceTable → ℕ → Option DrainState → String → SourceTable × Status
enter_at t drain none id = (t, Status.cancelled ("source is draining: " +s id))
enter_at t drain (some d) id =
    if d.accepting
    then (
      record t { drains = set t.drains drain (record d { in_flight = suc d.in_flight }) },
      Status.ok,
    )
    else (t, Status.cancelled ("source is draining: " +s id))

-- The part of `AddSourcePacket` under the drain state's lock; the packet has a token from then on.
unfoldable pub enter_drain : SourceTable → ℕ → String → SourceTable × Status
enter_drain t drain id = enter_at t drain (get_elem? t.drains drain) id

-- The packet that `AddSourcePacket` hands to `AddPacket`.
unfoldable pub mark_packet : {D : Type 0} → ℕ → String → Packet D → Packet D
mark_packet drain id p = set_metadata "source_id" (Packet.text id) (add_lifetime_token drain p)

abbrev pub release_at : SourceTable → ℕ → Option DrainState → SourceTable
release_at t drain none = t
release_at t drain (some d) = record t {
  drains = set t.drains drain (record d { in_flight = d.in_flight - 1 });
}

-- The end of a packet's token.
unfoldable pub release_token : SourceTable → ℕ → SourceTable
release_token t drain = release_at t drain (get_elem? t.drains drain)

-- `Stop` takes the sources first, and resets the counter at its end.
unfoldable pub swap_sources : SourceTable → SourceTable
swap_sources t = record t { sources = [] }

unfoldable pub reset_sources : SourceTable → SourceTable
reset_sources t = record t { active_sources = 0 }

abbrev pub info_of : String × SourceRuntime → SourceInfo
info_of (id, s) = record { slot = s.slot; source_id = id; health = s.health }

unfoldable pub list_sources : SourceTable → List SourceInfo
list_sources t = map info_of t.sources

abbrev pub health_of : Option SourceRuntime → StreamHealth
health_of none = record new_health { state = failed; message = "source not found" }
health_of (some s) = s.health

unfoldable pub get_source_health : SourceTable → String → StreamHealth
get_source_health t id = health_of (find id t.sources)
