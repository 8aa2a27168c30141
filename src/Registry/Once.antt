-- ===== src/Registry/Once.antt =====
-- Repeated registration in the node registry and repeated `Set` of side packets.
use rk_avp.Prelude.{
  ◌≡◌, true, false, List, [], ◌∷◌, none, some, String, ◌=?◌, string_keys, arith, eq_iff,
}
use rk_avp.Prelude.Maps.{find, emplace, assign, contains, find-erase, find-assign}
use rk_avp.Status.{is_ok}
use rk_avp.Packet.{Packet}
use rk_avp.Registry.{register, unregister, create, set_side_packet}

module _ {D : Type 0} where
  pub set_all : List (String × Packet D) → List (String × Packet D) → List (String × Packet D)
  set_all packets [] = packets
  set_all packets ((name, p) ∷ more) = set_all (set_side_packet packets name p).0 more

  set_side_packet_keeps :
      (packets : List (String × Packet D)) (name j : String) (p q : Packet D)
      → find j packets ≡ some q
      → find j (set_side_packet packets name p).0 ≡ some q
  unfolding set_side_packet emplace contains
  set_side_packet_keeps packets name j p q h =
      ground (arith, h, find-assign name j p packets, eq_iff name j)

  -- A side packet that is set stays as it is, whatever is set after it.
  set_all_keeps :
      (packets more : List (String × Packet D)) (j : String) (q : Packet D)
      → find j packets ≡ some q
      → find j (set_all packets more) ≡ some q
  unfolding set_all
  set_all_keeps packets [] j q h = h
  set_all_keeps packets ((name, p) ∷ more) j q h =
      set_all_keeps (set_side_packet packets name p).0 more j q
        (set_side_packet_keeps packets name j p q h)

module _ {F : Type 0} where
  -- A type that was not registered is registered by `Register`, refused the second time, and gone
  -- after `Unregister`; the other types are not touched.
  register_lem :
      (factories : List (String × F)) (type other : String) (f g : F)
      → (type =? "") ≡ false
      → create factories type ≡ none
      → let (added, status) = register factories type (some f) in
        (is_ok status ≡ true)
        × (create added type ≡ some f)
        × ((register added type (some g)).0 ≡ added)
        × (create (unregister added type).0 type ≡ none)
        × (create (unregister added type).0 other ≡ create factories other)
  unfolding register unregister create emplace contains
  register_lem factories type other f g e h = ground (
    arith,
    e,
    h,
    eq_iff type type,
    eq_iff type other,
    find-assign type type f factories,
    find-assign type other f factories,
    find-erase type type (assign type f factories),
    find-erase type other (assign type f factories),
  )
