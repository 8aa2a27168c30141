-- ===== src/Builtins/PacketRing.antt =====
-- `EncodedPacketRingBufferNode` of src/core/builtin_nodes.cpp. The type test on a payload is a
-- parameter.
pub mod Clips
use rk_avp.Prelude.{
  ℕ, zero, suc, ◌+◌, ◌-◌, Bool, true, false, ◌&&◌, ◌||◌, not, List, [], ◌∷◌, ◌++◌, Option, none,
  some, String, length, leb, ◌==◌, if◌then◌else◌, is_empty, rest, string_keys,
}
use rk_avp.Status.{Status, is_ok, Result, pass, fail, ◌>>=◌}
use rk_avp.Status
use rk_avp.Timestamp.{Timestamp}
use rk_avp.Timestamp
use rk_avp.ConfigValue.{Object}
use rk_avp.Packet.{Packet, PacketBatch, BatchItem, make_packet_batch, get_text, is_no_event}
use rk_avp.Builtins.{positive_option, size_option}

pub record PacketRing (D : Type 0) : Type 0 where
  pub capacity : ℕ
  pub post_packets : ℕ
  pub remaining_post_packets : ℕ
  pub recording : Bool
  pub packets : List (Packet D)
  pub clip : List (Packet D)

-- The node, the batch on the port `clip`, and the status if nothing is emitted.
abbrev pub Clipped : Type 0 → Type 0
Clipped D = PacketRing D × Option (Packet (PacketBatch D)) × Status

abbrev name_or_default : Option String → String
name_or_default none = "default"
name_or_default (some s) = s

module _ {D : Type 0} where
  abbrev pub new_packet_ring : PacketRing D
  new_packet_ring = record {
    capacity = 300;
    post_packets = 0;
    remaining_post_packets = 0;
    recording = false;
    packets = [];
    clip = [];
  }

  unfoldable pub configure : PacketRing D → Object → Result (PacketRing D)
  configure r options = do
    capacity ← positive_option options "capacity" r.capacity "capacity must be positive"
    post_packets ←
        size_option options "post_packets" r.post_packets "post_packets must be non-negative"
    pass (record r { capacity = capacity; post_packets = post_packets })

  unfoldable pub clip_items : ℕ → List (Packet D) → List (BatchItem D)
  clip_items n [] = []
  clip_items n (p ∷ ps) =
      record {
        source_id = name_or_default (get_text "source_id" p.metadata);
        packet = p;
        batch_index = n;
      }
      ∷ clip_items (suc n) ps

  abbrev pub clip_time : List (Packet D) → Timestamp
  clip_time [] = Timestamp.unset
  clip_time (p ∷ ps) = p.timestamp

  unfoldable pub emit_clip : PacketRing D → Clipped D
  emit_clip r =
      let r' = record r { clip = [] } in
      if is_empty r.clip
      then (r', none, Status.ok)
      else (r', some (make_packet_batch (clip_items 0 r.clip) (clip_time r.clip)), Status.ok)

  unfoldable pub trigger : PacketRing D → Clipped D
  trigger r =
      let r' = record r {
        clip = r.packets;
        remaining_post_packets = r.post_packets;
        recording = not (r.post_packets == 0);
      } in
      if r'.recording then (r', none, Status.ok) else emit_clip r'

  -- A data packet: into the ring, and into the clip while one is recorded.
  unfoldable pub store : PacketRing D → Packet D → Clipped D
  store r p =
      let kept = if length r.packets == r.capacity then rest r.packets else r.packets in
      let r' = record r { packets = kept ++ p ∷ [] } in
      let r'' = record r' {
        clip = r.clip ++ p ∷ [];
        remaining_post_packets = r.remaining_post_packets - 1;
      } in
      if not r.recording
      then (r', none, Status.ok)
      else if r''.remaining_post_packets == 0
      then emit_clip (record r'' { recording = false })
      else (r'', none, Status.ok)

  module _ (is_encoded : Option D → Bool) where
    -- The packets on the ports `trigger` and `packet`.
    unfoldable pub on_process : PacketRing D → Option (Packet D) → Option (Packet D) → Clipped D
    on_process r (some signal) p = trigger r
    on_process r none none =
        (r, none, Status.invalid "EncodedPacketRingBuffer requires packet or trigger")
    on_process r none (some p) =
        if not (is_no_event p.event)
        then (r, none, Status.ok)
        else if not (is_encoded p.payload)
        then (r, none, Status.invalid "ring buffer expects EncodedPacket")
        else store r p
