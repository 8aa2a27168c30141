-- ===== src/Tests/Streams.antt =====
-- Small streams and synchronized inputs for src/core/graph_runner.cpp.
use rk_avp.Prelude.{
  ℕ, ◌≡◌, ◌⊎◌, refl, true, false, List, [], ◌∷◌, none, some, String, ℤ, pos, string_keys, int_keys,
  arith, All, if◌then◌else◌, eqb_ℤ_iff,
}
use rk_avp.Prelude.Names.{member}
use rk_avp.Prelude.Maps.{find, assign, contains, emplace, erase}
use rk_avp.Timestamp.{Timestamp, is_range_value, is_unset, from_microseconds, ◌≤ₜ◌, IsInt64}
use rk_avp.Timestamp
use rk_avp.Packet.{Packet, ControlEvent, make}
use rk_avp.MediaCaps.{any_caps}
use rk_avp.Node.Contract.{PortSpec, InputPolicy, sync, latest}
use rk_avp.Runner.Stream.{
  new_stream, Arrival, packet, bound, ends, arrive, validate_stream_packet, accepted, Ascending,
  Above, accepted_lem,
}
use rk_avp.Runner.Sync.{
  RuntimeNode, PacketSet, pending_at, prune_impossible_sync_packets, prepare_invocation,
  prepare_sync, prepare_by, dispatch_sync, arrived, prune_by, collect, put, first_ready, is_ready,
  candidates, keys_of, prune_each, erase_everywhere, impossible,
}
use rk_avp.Runner.Sync.Prune.{Hopeless, prune_lem}
use rk_avp.Runner.Sync.Collect.{Stamped}
use rk_avp.Runner.Sync.Aligned.{IsAligned, IsEnd, prepare_sync_inputs}
use rk_avp.Runner.Sync.Latest.{Required, trigger, listed, latest_lem}

abbrev at_time : ℕ → Timestamp
at_time n = from_microseconds (pos n)

abbrev arrivals : List Arrival
arrivals =
    packet (at_time 10)
    ∷ bound (at_time 20)
    ∷ packet (at_time 15)
    ∷ packet (at_time 30)
    ∷ packet (at_time 25)
    ∷ ends
    ∷ []

accepts_two : accepted "video" new_stream arrivals ≡ at_time 10 ∷ at_time 30 ∷ []
unfolding accepted arrive validate_stream_packet
accepts_two = refl

accepted_lem_example :
    Ascending Timestamp.unset (accepted "video" new_stream arrivals)
    × All (Above Timestamp.unset) (accepted "video" new_stream arrivals)
    × (accepted "video" (arrive "video" new_stream ends).0 arrivals ≡ [])
accepted_lem_example = accepted_lem "video" new_stream arrivals (omega arith) (omega arith)

abbrev port : String → PortSpec
port name = record { name = name; caps = any_caps; required = true }

abbrev frame : ℕ → ℕ → Packet ℕ
frame value t = make value (at_time t)

abbrev stereo : InputPolicy → RuntimeNode ℕ
stereo policy = record {
  id = "join";
  executor = "default";
  inputs = port "left" ∷ port "right" ∷ [];
  input_policy = policy;
  trigger_port = "";
  latest_packets = ("right", frame 1 5) ∷ [];
  pending = ("left", (pos 5, frame 2 5) ∷ (pos 9, frame 3 9) ∷ []) ∷ [];
  closed_ports = [];
  bounds = ("right", at_time 7) ∷ [];
  eos_dispatched = false;
}

prune_lem_example :
    (Hopeless (stereo sync).inputs (stereo sync) (pos 5)
      × (pending_at (prune_impossible_sync_packets (stereo sync)).0.pending "left" (pos 5) ≡ none))
    ⊎ ((¬ Hopeless (stereo sync).inputs (stereo sync) (pos 5))
        × (pending_at (prune_impossible_sync_packets (stereo sync)).0.pending "left" (pos 5)
            ≡ pending_at (stereo sync).pending "left" (pos 5)))
prune_lem_example = prune_lem (stereo sync) "left" (pos 5) refl

abbrev no_payload : ControlEvent → ℕ
no_payload e = 0

abbrev joined : PacketSet ℕ
joined = ("left", frame 3 9) ∷ ("right", frame 4 9) ∷ []

joins : (prepare_invocation no_payload (stereo sync) "right" (frame 4 9)).inputs ≡ some joined
unfolding prepare_invocation prepare_by prepare_sync dispatch_sync first_ready find
    prune_impossible_sync_packets prune_by prune_each candidates keys_of assign put emplace
    impossible member erase_everywhere erase is_ready collect arrived contains
joins = refl

Stamped-stereo : Stamped (stereo sync).pending
unfolding find
Stamped-stereo name ts p h = ground (arith, eqb_ℤ_iff (pos 5) ts, eqb_ℤ_iff (pos 9) ts)

prepare_sync_inputs_example :
    let r' = (prepare_invocation no_payload (stereo sync) "right" (frame 4 9)).node in
    ((ts : ℤ) × IsAligned (stereo sync).inputs ts r'.pending joined)
    ⊎ IsEnd no_payload (stereo sync) r' joined
prepare_sync_inputs_example =
    prepare_sync_inputs no_payload (stereo sync) "right" (frame 4 9) joined refl Stamped-stereo
      joins

latest_lem_example :
    let result = prepare_invocation no_payload (stereo latest) "left" (frame 6 8) in
    let table = assign "left" (frame 6 8) (stereo latest).latest_packets in
    (result.node.latest_packets ≡ table)
    × ((("left" ≡ trigger no_payload (stereo latest))
          × Required (stereo latest).inputs table
          × ((xs : PacketSet ℕ) × (result.inputs ≡ some xs)
              × ((name : String)
                  → find name xs
                    ≡ (if listed name (stereo latest).inputs then find name table else none))))
        ⊎ ((¬ (
              ("left" ≡ trigger no_payload (stereo latest))
              × Required (stereo latest).inputs table))
            × (result.inputs ≡ none)))
latest_lem_example = latest_lem no_payload (stereo latest) "left" (frame 6 8) refl
