-- ===== src/Streaming/JitterBuffer.antt =====
-- `EncodedJitterBuffer` of src/core/streaming_primitives.cpp and `EncodedPacket` of
-- include/rkavp/media_types.hpp. A method under the lock is one step. `std::upper_bound` on the
-- packets, which stand by their timestamps, is the place before the first later one. The
-- subtraction of the latency is meant to stay within an int64.
pub mod Order
use rk_avp.Prelude.{
  ℕ, Bool, true, false, ◌||◌, ◌&&◌, not, List, [], ◌∷◌, Option, none, some, String, ℤ, pos, max_ℤ,
  ◌-ℤ◌, length, ltb, ◌==◌, if◌then◌else◌, drop,
}
use rk_avp.Status.{Status}
use rk_avp.Status
use rk_avp.Timestamp.{Timestamp, unset, from_microseconds, is_range_value, lt, le}

-- `B` is `BufferPtr`.
pub record EncodedPacket (B : Type 0) : Type 0 where
  pub pts : Timestamp
  pub dts : Timestamp
  pub codec : String
  pub key_frame : Bool
  pub buffer : B

pub record EncodedJitterBuffer (B : Type 0) : Type 0 where
  pub capacity : ℕ
  pub max_latency_us : ℤ
  pub packets : List (EncodedPacket B)
  pub last_output_pts : Timestamp
  pub closed : Bool

module _ {B : Type 0} where
  unfoldable pub make_jitter_buffer : ℕ → ℤ → EncodedJitterBuffer B
  make_jitter_buffer capacity max_latency_us = record {
    capacity = if capacity == 0 then 1 else capacity;
    max_latency_us = max_ℤ (pos 0) max_latency_us;
    packets = [];
    last_output_pts = unset;
    closed = false;
  }

  unfoldable pub insert_packet : EncodedPacket B → List (EncodedPacket B) → List (EncodedPacket B)
  insert_packet packet [] = packet ∷ []
  insert_packet packet (item ∷ items) =
      let rest = insert_packet packet items in
      if lt packet.pts item.pts then packet ∷ item ∷ items else item ∷ rest

  -- The part of `Push` that stores an accepted packet, and what it sets `dropped` to.
  unfoldable pub keep_packets :
      EncodedJitterBuffer B → List (EncodedPacket B) → EncodedJitterBuffer B × Status × Bool
  keep_packets b packets =
      if ltb b.capacity (length packets)
      then (record b { packets = drop 1 packets }, Status.ok, true)
      else (record b { packets = packets }, Status.ok, false)

  unfoldable pub push_encoded :
      EncodedJitterBuffer B → EncodedPacket B → EncodedJitterBuffer B × Status × Bool
  push_encoded b packet =
      if b.closed
      then (b, Status.cancelled "jitter buffer is closed", false)
      else if not (is_range_value packet.pts)
      then (b, Status.invalid "jitter packet requires PTS", false)
      else if is_range_value b.last_output_pts && le packet.pts b.last_output_pts
      then (b, Status.ok, true)
      else keep_packets b (insert_packet packet b.packets)

  -- The body of `PopReady` on the packets there are; `none` is the result false.
  unfoldable pub pop_due :
      EncodedJitterBuffer B
      → Timestamp
      → List (EncodedPacket B)
      → EncodedJitterBuffer B × Option (EncodedPacket B)
  pop_due b watermark [] = (b, none)
  pop_due b watermark (front ∷ rest) =
      let deadline = from_microseconds (watermark.microseconds -ℤ b.max_latency_us) in
      if not (is_range_value watermark) || lt deadline front.pts
      then (b, none)
      else (record b { packets = rest; last_output_pts = front.pts }, some front)

  unfoldable pub pop_ready :
      EncodedJitterBuffer B → Timestamp → EncodedJitterBuffer B × Option (EncodedPacket B)
  pop_ready b watermark = pop_due b watermark b.packets

  unfoldable pub close_jitter_buffer : EncodedJitterBuffer B → EncodedJitterBuffer B
  close_jitter_buffer b = record b { packets = []; closed = true }
