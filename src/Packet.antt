-- ===== src/Packet.antt =====
-- include/rkavp/packet.hpp, metadata.hpp and packet_batch.hpp. A packet is generic in the type of
-- its payload, which stands for the stored `type_index`; a lifetime token is a number. A double in
-- the metadata is kept as its 64 bits.
use rk_avp.Prelude.{
  ℕ, Bool, true, false, List, [], ◌∷◌, ◌++◌, Option, none, some, String, ℤ, string_keys,
}
use rk_avp.Prelude.Maps.{find, assign}
use rk_avp.Timestamp.{Timestamp}

pub data ControlEvent : Type 0 where
  no_event end_of_stream timestamp_bound flush pause resume reconfigure force_key_frame :
      ControlEvent

pub data MetadataValue : Type 0 where
  integer : ℤ → MetadataValue
  double_bits : ℕ → MetadataValue
  boolean : Bool → MetadataValue
  text : String → MetadataValue

abbrev pub MetadataSet : Type 0
MetadataSet = List (String × MetadataValue)

abbrev text_of : Option MetadataValue → Option String
text_of (some (text s)) = some s
text_of _ = none

-- `Get<std::string>`: nothing on a missing key or on another type.
unfoldable pub get_text : String → MetadataSet → Option String
get_text k m = text_of (find k m)

pub record Packet {ℓ} (D : Type ℓ) : Type ℓ where
  pub payload : Option D
  pub timestamp : Timestamp
  pub metadata : MetadataSet
  pub event : ControlEvent
  pub lifetime_tokens : List ℕ

module _ {ℓ} {D : Type ℓ} where
  abbrev pub make : D → Timestamp → Packet D
  make value t = record {
    payload = some value;
    timestamp = t;
    metadata = [];
    event = no_event;
    lifetime_tokens = [];
  }

  abbrev pub is_empty_packet : Packet D → Bool
  is_empty_packet p = elim p.payload [ none ↦ true | some d ↦ false ]

  abbrev pub add_lifetime_token : ℕ → Packet D → Packet D
  add_lifetime_token token p = record p { lifetime_tokens = p.lifetime_tokens ++ token ∷ [] }

  abbrev pub set_metadata : String → MetadataValue → Packet D → Packet D
  set_metadata k v p = record p { metadata = assign k v p.metadata }

module _ {ℓ κ} {D : Type ℓ} {E : Type κ} where
  -- `p.InheritLifetimeTokens(q)`.
  abbrev pub inherit_lifetime_tokens : Packet D → Packet E → Packet D
  inherit_lifetime_tokens p q = record p {
    lifetime_tokens = p.lifetime_tokens ++ q.lifetime_tokens;
  }

abbrev pub is_timestamp_bound : ControlEvent → Bool
is_timestamp_bound timestamp_bound = true
is_timestamp_bound _ = false

abbrev pub is_end_of_stream : ControlEvent → Bool
is_end_of_stream end_of_stream = true
is_end_of_stream _ = false

abbrev pub is_no_event : ControlEvent → Bool
is_no_event no_event = true
is_no_event _ = false

pub record BatchItem {ℓ} (D : Type ℓ) : Type ℓ where
  pub source_id : String
  pub packet : Packet D
  pub batch_index : ℕ

pub record PacketBatch {ℓ} (D : Type ℓ) : Type ℓ where
  pub items : List (BatchItem D)
  pub timestamp : Timestamp

module _ {ℓ} {D : Type ℓ} where
  -- The tokens of all packets of a batch, in order.
  pub batch_tokens : List (BatchItem D) → List ℕ
  batch_tokens [] = []
  batch_tokens (i ∷ is) = i.packet.lifetime_tokens ++ batch_tokens is

  unfoldable pub make_packet_batch : List (BatchItem D) → Timestamp → Packet (PacketBatch D)
  unfolding batch_tokens
  make_packet_batch is t = record (make (record { items = is; timestamp = t }) t) {
    lifetime_tokens = batch_tokens is;
  }

-- `Packet::Event`. The payload of an event is the event itself, so the payload type says how it
-- holds one.
abbrev pub event_packet {ℓ} :
    {D : Type ℓ} → (ControlEvent → D) → ControlEvent → Timestamp → Packet D
event_packet inject e t = record (make (inject e) t) { event = e }
