-- ===== src/Runner/Sync.antt =====
-- The input side of a node in src/core/graph_runner.cpp: `RuntimeNode`, `PrepareInvocation` and
-- `PruneImpossibleSyncPacketsLocked`. `m[k]` on a missing key reads as an empty map. What the
-- source reports by `SetError` and counts in the metrics is part of the result.
pub mod Slots
pub mod Prune
pub mod Collect
pub mod Aligned
pub mod Latest
use rk_avp.Prelude.{
  ℕ, suc, ◌+◌, ◌≡◌, refl, Bool, true, false, ◌&&◌, ◌||◌, not, List, [], ◌∷◌, ◌++◌, Option, none,
  some, String, if◌then◌else◌, ℤ, ltb_ℤ, ◌=?◌, string_keys, int_keys,
}
use rk_avp.Prelude.Maps.{find, assign, emplace, erase, contains, is_some}
use rk_avp.Prelude.Names.{member}
use rk_avp.Status.{Status, ◌+s◌}
use rk_avp.Status
use rk_avp.Timestamp.{Timestamp, is_range_value, is_done}
use rk_avp.Timestamp
use rk_avp.Packet.{Packet, ControlEvent, end_of_stream, is_end_of_stream, event_packet}
use rk_avp.Node.Contract.{PortSpec, InputPolicy, any_input, sync, latest}

module _ {D : Type 0} where
  -- `std::map<int64, Packet>`, least key first.
  unfoldable pub put : ℤ → Packet D → List (ℤ × Packet D) → List (ℤ × Packet D)
  put k p [] = (k, p) ∷ []
  put k p ((j, q) ∷ m) =
      let later = put k p m in
      if ltb_ℤ k j then (k, p) ∷ (j, q) ∷ m else if j =? k then (k, p) ∷ m else (j, q) ∷ later

-- The packets that wait at each port, by timestamp.
abbrev pub Pending : Type 0 → Type 0
Pending D = List (String × List (ℤ × Packet D))

abbrev pub PacketSet : Type 0 → Type 0
PacketSet D = List (String × Packet D)

pub record RuntimeNode (D : Type 0) : Type 0 where
  pub id : String
  pub executor : String
  pub inputs : List PortSpec
  pub input_policy : InputPolicy
  pub trigger_port : String
  pub latest_packets : PacketSet D
  pub pending : Pending D
  pub closed_ports : List String
  pub bounds : List (String × Timestamp)
  pub eos_dispatched : Bool

abbrev pub past : ℤ → Option Timestamp → Bool
past ts none = false
past ts (some b) = is_done b || (is_range_value b && ltb_ℤ ts b.microseconds)

unfoldable pub all_closed : List PortSpec → List String → Bool
all_closed [] closed_ports = true
all_closed (s ∷ ss) closed_ports =
    (not s.required || member s.name closed_ports) && all_closed ss closed_ports

abbrev pub front_name : List PortSpec → String
front_name [] = ""
front_name (s ∷ ss) = s.name

module _ {D : Type 0} where
  abbrev pub slot_of : Option (List (ℤ × Packet D)) → List (ℤ × Packet D)
  slot_of none = []
  slot_of (some m) = m

  -- `pending[name]`.
  abbrev pub slot : String → Pending D → List (ℤ × Packet D)
  slot name pending = slot_of (find name pending)

  -- `pending[name].find(ts)`.
  abbrev pub pending_at : Pending D → String → ℤ → Option (Packet D)
  pending_at pending name ts = find ts (slot name pending)

  -- The set of all timestamps that wait at some port.
  unfoldable pub keys_of : List (ℤ × Packet D) → List (ℤ × Unit {0}) → List (ℤ × Unit {0})
  keys_of [] set = set
  keys_of ((k, p) ∷ m) set = keys_of m (emplace k tt set).0

  unfoldable pub candidates : Pending D → List (ℤ × Unit {0}) → List (ℤ × Unit {0})
  unfolding keys_of
  candidates [] set = set
  candidates ((name, m) ∷ pending) set = candidates pending (keys_of m set)

  -- The loop over the ports: one that is required and lacks the timestamp can never have it.
  unfoldable pub impossible :
      List PortSpec → Pending D → List String → List (String × Timestamp) → ℤ → Bool
  impossible [] pending closed_ports bounds ts = false
  impossible (s ∷ ss) pending closed_ports bounds ts =
      let later = impossible ss pending closed_ports bounds ts in
      if not s.required || is_some (pending_at pending s.name ts)
      then later
      else if member s.name closed_ports || past ts (find s.name bounds)
      then true
      else later

  unfoldable pub erase_everywhere : ℤ → Pending D → Pending D
  erase_everywhere ts [] = []
  erase_everywhere ts ((name, m) ∷ pending) = (name, erase ts m) ∷ erase_everywhere ts pending

  -- The pending packets, and how many timestamps were dropped.
  unfoldable pub prune_each :
      List PortSpec
      → List String
      → List (String × Timestamp)
      → List (ℤ × Unit {0})
      → Pending D
      → Pending D × ℕ
  prune_each specs closed_ports bounds [] pending = (pending, 0)
  prune_each specs closed_ports bounds ((ts, _) ∷ set) pending =
      let gone = impossible specs pending closed_ports bounds ts in
      let (pending', n) =
        prune_each specs closed_ports bounds set
          (if gone then erase_everywhere ts pending else pending) in
      (pending', if gone then suc n else n)

  unfoldable pub prune_by : InputPolicy → RuntimeNode D → RuntimeNode D × ℕ
  prune_by sync r =
      let (pending', n) =
        prune_each r.inputs r.closed_ports r.bounds (candidates r.pending []) r.pending in
      (record r { pending = pending' }, n)
  prune_by _ r = (r, 0)

  unfoldable pub prune_impossible_sync_packets : RuntimeNode D → RuntimeNode D × ℕ
  unfolding prune_by
  prune_impossible_sync_packets r = prune_by r.input_policy r

  -- All required ports have a packet of this timestamp.
  unfoldable pub is_ready : List PortSpec → Pending D → ℤ → Bool
  is_ready [] pending ts = true
  is_ready (s ∷ ss) pending ts =
      (not s.required || is_some (pending_at pending s.name ts)) && is_ready ss pending ts

  -- One port's packet of the timestamp, moved from the pending packets to the inputs.
  abbrev pub moved :
      String → ℤ → Option (Packet D) → Pending D × PacketSet D → Pending D × PacketSet D
  moved name ts none (pending, inputs) = (pending, inputs)
  moved name ts (some p) (pending, inputs) =
      (assign name (erase ts (slot name pending)) pending, (emplace name p inputs).0)

  unfoldable pub collect : List PortSpec → ℤ → Pending D × PacketSet D → Pending D × PacketSet D
  collect [] ts acc = acc
  collect (s ∷ ss) ts acc = collect ss ts (moved s.name ts (pending_at acc.0 s.name ts) acc)

  -- The first timestamp of the port that is ready, least first.
  unfoldable pub first_ready : List PortSpec → Pending D → List (ℤ × Packet D) → Option ℤ
  first_ready specs pending [] = none
  first_ready specs pending ((ts, p) ∷ m) =
      let later = first_ready specs pending m in
      if is_ready specs pending ts then some ts else later

  -- The port is closed by the end of its stream; any other packet waits.
  unfoldable pub arrived : RuntimeNode D → String → Packet D → RuntimeNode D
  arrived r port p =
      if is_end_of_stream p.event
      then record r { closed_ports = port ∷ r.closed_ports }
      else record r {
        pending = assign port (put p.timestamp.microseconds p (slot port r.pending)) r.pending;
      }

  abbrev pub latest_step :
      Bool
      → String
      → Option (Packet D)
      → PacketSet D
      → (PacketSet D → Option (PacketSet D))
      → Option (PacketSet D)
  latest_step true name none inputs next = none
  latest_step false name none inputs next = next inputs
  latest_step required name (some p) inputs next = next (emplace name p inputs).0

  -- `none` when a required port has no packet yet.
  unfoldable pub latest_inputs : List PortSpec → PacketSet D → PacketSet D → Option (PacketSet D)
  latest_inputs [] latest_packets inputs = some inputs
  latest_inputs (s ∷ ss) latest_packets inputs =
      latest_step s.required s.name (find s.name latest_packets) inputs
        (latest_inputs ss latest_packets)

-- What `PrepareInvocation` leaves: `inputs` is `none` where it returns false.
pub record Prepared (D : Type 0) : Type 0 where
  pub node : RuntimeNode D
  pub inputs : Option (PacketSet D)
  pub error : Option Status
  pub dropped : ℕ

-- The payload of an event packet is the event, kept as the payload type says.
module _ {D : Type 0} (event_payload : ControlEvent → D) where
  abbrev pub eos_packet : Packet D
  eos_packet = event_packet event_payload end_of_stream Timestamp.done

  unfoldable pub eos_inputs : List PortSpec → PacketSet D → PacketSet D
  eos_inputs [] inputs = inputs
  eos_inputs (s ∷ ss) inputs =
      eos_inputs ss (if s.required then (emplace s.name eos_packet inputs).0 else inputs)

  -- After pruning: an input set of one timestamp, or the end of the stream, once.
  unfoldable pub dispatch_sync : RuntimeNode D → ℕ → Option ℤ → Prepared D
  unfolding eos_inputs
  dispatch_sync r n (some ts) =
      let (pending', inputs) = collect r.inputs ts (r.pending, []) in
      record {
        node = record r { pending = pending' };
        inputs = some inputs;
        error = none;
        dropped = n;
      }
  dispatch_sync r n none =
      if all_closed r.inputs r.closed_ports && not r.eos_dispatched
      then record {
        node = record r { eos_dispatched = true };
        inputs = some (eos_inputs r.inputs []);
        error = none;
        dropped = n;
      }
      else record { node = r; inputs = none; error = none; dropped = n }

  unfoldable pub prepare_sync : RuntimeNode D → String → Packet D → Prepared D
  unfolding dispatch_sync arrived
  prepare_sync r port p =
      let (r', n) = prune_impossible_sync_packets (arrived r port p) in
      if not (is_range_value p.timestamp) && not (is_end_of_stream p.event)
      then record {
        node = r;
        inputs = none;
        error =
            some
              (Status.invalid ("sync input requires a range timestamp on " +s r.id +s "." +s port));
        dropped = 0;
      }
      else dispatch_sync r' n (first_ready r'.inputs r'.pending (slot port r'.pending))

  unfoldable pub prepare_latest : RuntimeNode D → String → Packet D → Prepared D
  prepare_latest r port p =
      let closed' = if is_end_of_stream p.event then port ∷ r.closed_ports else r.closed_ports in
      let r' = record r {
        closed_ports = closed';
        latest_packets = assign port p r.latest_packets;
      } in
      let trigger = if r.trigger_port =? "" then front_name r.inputs else r.trigger_port in
      record {
        node = r';
        inputs = if port =? trigger then latest_inputs r'.inputs r'.latest_packets [] else none;
        error = none;
        dropped = 0;
      }

  unfoldable pub prepare_by : InputPolicy → RuntimeNode D → String → Packet D → Prepared D
  unfolding prepare_sync prepare_latest
  prepare_by any_input r port p = record {
    node = r;
    inputs = some ((port, p) ∷ []);
    error = none;
    dropped = 0;
  }
  prepare_by latest r port p = prepare_latest r port p
  prepare_by sync r port p = prepare_sync r port p

  unfoldable pub prepare_invocation : RuntimeNode D → String → Packet D → Prepared D
  unfolding prepare_by
  prepare_invocation r = prepare_by r.input_policy r
