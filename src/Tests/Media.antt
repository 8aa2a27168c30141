-- ===== src/Tests/Media.antt =====
-- Runs of the jitter buffer and of the clock mapping.
use rk_avp.Prelude.{ℕ, ◌+◌, ◌≡◌, false, List, [], ◌∷◌, pos, arith}
use rk_avp.Timestamp.{unset, from_microseconds}
use rk_avp.Streaming.JitterBuffer.{EncodedPacket, make_jitter_buffer}
use rk_avp.Streaming.JitterBuffer.Order.{
  Call, pushes, pops, closes, run, Rises, HoldsInt64, outputs-Rises,
}
use rk_avp.Streaming.ClockMapping.{make_mapper, follow_counter, ticks_since, map_rtp}
use rk_avp.Streaming.ClockMapping.Unwrapping.{
  map_all, passed_all, counter, map_all_unwraps, late_packet_shifts,
}

abbrev packet_at : ℕ → EncodedPacket ℕ
packet_at t = record {
  pts = from_microseconds (pos t);
  dts = from_microseconds (pos t);
  codec = "h264";
  key_frame = false;
  buffer = t;
}

abbrev jitter_calls : List (Call ℕ)
jitter_calls =
    pushes (packet_at 30)
    ∷ pushes (packet_at 10)
    ∷ pushes (packet_at 20)
    ∷ pops (from_microseconds (pos 25))
    ∷ pushes (packet_at 5)
    ∷ pops (from_microseconds (pos 60))
    ∷ closes
    ∷ []

jitter_calls_fit : HoldsInt64 jitter_calls
jitter_calls_fit = (
  (omega arith, omega arith),
  ((omega arith, omega arith), ((omega arith, omega arith), ((omega arith, omega arith), tt))),
)

outputs-Rises_example : Rises unset (run (make_jitter_buffer 2 (pos 5)) jitter_calls).1
outputs-Rises_example = outputs-Rises 2 (pos 5) jitter_calls jitter_calls_fit

abbrev steps : List ℕ
steps = 90 ∷ 90 ∷ 2000000000 ∷ []

map_all_unwraps_example :
    map_all (map_rtp (make_mapper 90000) 4294967200).0 4294967200 steps ≡ passed_all 90000 0 steps
map_all_unwraps_example =
    map_all_unwraps 90000 4294967200 steps (omega arith) (omega arith)
      (omega arith, omega arith, (omega arith, omega arith, (omega arith, omega arith, tt)))

late_packet_shifts_example :
    let m =
      follow_counter (follow_counter (make_mapper 90000) 4294967200) (counter (4294967200 + 180)) in
    let m' = follow_counter (follow_counter m (4294967200 + 90)) (counter (4294967200 + 180)) in
    (ticks_since m (counter (4294967200 + 180)) ≡ 180)
    × (ticks_since m' (counter (4294967200 + 180)) ≡ 180 + 4294967296)
late_packet_shifts_example =
    late_packet_shifts 90000 4294967200 180 90 (omega arith) (omega arith) (omega arith)
