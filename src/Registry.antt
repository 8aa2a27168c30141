-- ===== src/Registry.antt =====
-- `NodeRegistry` of src/core/node_registry.cpp and `SidePacketSet` of src/core/services.cpp: tables whose
-- entries are set once. A factory is a value of the type `F`.
pub mod Once
use rk_avp.Prelude.{
  Bool, true, false, ◌||◌, not, List, [], ◌∷◌, Option, none, some, String, if◌then◌else◌, ◌=?◌,
  string_keys,
}
use rk_avp.Prelude.Maps.{find, emplace, erase, contains}
use rk_avp.Status.{Status, ◌+s◌}
use rk_avp.Status
use rk_avp.Packet.{Packet, is_empty_packet}

module _ {F : Type 0} where
  abbrev register_factory : List (String × F) → String → F → List (String × F) × Status
  register_factory factories type f =
      if contains type factories
      then (factories, Status.already_exists ("node type is already registered: " +s type))
      else ((emplace type f factories).0, Status.ok)

  -- `none` is an empty `std::function`.
  unfoldable pub register : List (String × F) → String → Option F → List (String × F) × Status
  register factories type none = (factories, Status.invalid "node type and factory are required")
  register factories type (some f) =
      if type =? ""
      then (factories, Status.invalid "node type and factory are required")
      else register_factory factories type f

  unfoldable pub unregister : List (String × F) → String → List (String × F) × Status
  unregister factories type =
      if contains type factories
      then (erase type factories, Status.ok)
      else (factories, Status.not_found ("node type is not registered: " +s type))

  -- The factory that `Create` calls.
  unfoldable pub create : List (String × F) → String → Option F
  create factories type = find type factories

module _ {D : Type 0} where
  unfoldable pub set_side_packet :
      List (String × Packet D) → String → Packet D → List (String × Packet D) × Status
  set_side_packet packets name p =
      if name =? "" || is_empty_packet p
      then (packets, Status.invalid "side packet name and value are required")
      else if contains name packets
      then (packets, Status.already_exists "side packet is immutable and already set")
      else ((emplace name p packets).0, Status.ok)
