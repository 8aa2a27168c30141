-- ===== src/Runner/Sync/Latest.antt =====
-- The input sets that a node with the `latest` policy is given.
use rk_avp.Prelude.{
  ◌≡◌, ◌⊎◌, refl, ap, Bool, true, false, ◌||◌, ◌↔◌, List, [], ◌∷◌, none, some, String,
  if◌then◌else◌, ◌=?◌, string_keys, arith, eq_iff, Bool-cases, Option-cases, inl, inr, All,
}
use rk_avp.Prelude.Maps.{find, emplace, assign, contains, is_some, find-assign}
use rk_avp.Packet.{Packet, ControlEvent}
use rk_avp.Node.Contract.{PortSpec, latest}
use rk_avp.Runner.Sync.{
  RuntimeNode, PacketSet, latest_inputs, front_name, prepare_latest, prepare_invocation, prepare_by,
}

unfoldable pub listed : String → List PortSpec → Bool
listed name [] = false
listed name (s ∷ ss) = s.name =? name || listed name ss

module _ {D : Type 0} where
  find-emplace_cases :
      (k j : String) (v : Packet D) (m : PacketSet D)
      → find j (emplace k v m).0
        ≡ (if is_some (find j m) then find j m else if k =? j then some v else none)
  unfolding emplace contains
  find-emplace_cases k j v m = ground (arith, find-assign k j v m, eq_iff k j)

  -- The inputs that are there already, and for the other listed ports the table's packets.
  find-latest_inputs :
      (specs : List PortSpec) (table inputs xs : PacketSet D) (name : String)
      → latest_inputs specs table inputs ≡ some xs
      → find name xs ≡ (
          if is_some (find name inputs)
          then find name inputs
          else if listed name specs
          then find name table
          else none)
  unfolding latest_inputs listed
  find-latest_inputs [] table inputs xs name h = ground arith
  find-latest_inputs (s ∷ ss) table inputs xs name h = elim (Option-cases (find s.name table)) [
    | inl e ↦ elim (Bool-cases s.required) [
      | inl r ↦ absurd (cc)
      | inr r ↦ ground (
        arith,
        e,
        eq_iff s.name name,
        find-latest_inputs ss table inputs xs name (rw (e, r) at h),
      )
    ]
    | inr (p, e) ↦ ground (
      arith,
      e,
      eq_iff s.name name,
      find-emplace_cases s.name name p inputs,
      find-latest_inputs ss table (emplace s.name p inputs).0 xs name (rw e at h),
    )
  ]

  abbrev pub Required : List PortSpec → PacketSet D → Type 0
  Required specs table =
      All (λ (s : PortSpec). s.required ≡ true → is_some (find s.name table) ≡ true) specs

  latest_inputs-Required :
      (specs : List PortSpec) (table inputs : PacketSet D)
      → (is_some (latest_inputs specs table inputs) ≡ true) ↔ Required specs table
  unfolding latest_inputs
  latest_inputs-Required [] table inputs = ((λ h. tt), (λ h. refl))
  latest_inputs-Required (s ∷ ss) table inputs = elim (Option-cases (find s.name table)) [
    | inl e ↦ elim (Bool-cases s.required) [
      | inl r ↦ rw (e, r) ((λ f. absurd (cc)), (λ f. absurd (ground arith)))
      | inr r ↦
          rw (e, r)
            (let (to, back) = latest_inputs-Required ss table inputs in
              ((λ f. ((λ g. absurd (cc)), to f)), (λ f. back f.1)))
    ]
    | inr (p, e) ↦ rw e (
        let (to, back) = latest_inputs-Required ss table (emplace s.name p inputs).0 in
        ((λ f. ((λ g i. true), to f)), (λ f. back f.1)))
  ]

module _ {D : Type 0} where
  -- The input set, when there is one to give.
  latest_inputs_cases :
      (specs : List PortSpec) (table : PacketSet D) (b : Bool) (P : Type 0)
      → (b ≡ true) ↔ P
      → (P
          × Required specs table
          × ((xs : PacketSet D) × ((if b then latest_inputs specs table [] else none) ≡ some xs)
              × ((name : String)
                  → find name xs ≡ (if listed name specs then find name table else none))))
        ⊎ ((¬ (P × Required specs table))
            × ((if b then latest_inputs specs table [] else none) ≡ none))
  unfolding find
  latest_inputs_cases specs table false P (to, back) =
      inr ((λ f. (let e = back f.0 in cc)), λ i. none)
  latest_inputs_cases specs table true P (to, back) =
      let (all_there, given) = latest_inputs-Required specs table [] in
      elim (Option-cases (latest_inputs specs table [])) [
        | inl e ↦ inr ((λ f. (let e' = given f.1 in cc)), e)
        | inr (xs, e) ↦ inl (
          to refl,
          all_there (ap is_some e),
          (xs, e, λ name. find-latest_inputs specs table [] xs name e),
        )
      ]

module _ {D : Type 0} (event_payload : ControlEvent → D) where
  abbrev pub trigger : RuntimeNode D → String
  trigger r = if r.trigger_port =? "" then front_name r.inputs else r.trigger_port

  -- A node with the `latest` policy keeps the newest packet of each port, and nothing waits. It is
  -- invoked exactly when the packet is on its trigger port and each required port has had a
  -- packet; then each of its ports is given the newest packet of that port, the one that has just
  -- arrived included.
  pub latest_lem :
      (r : RuntimeNode D) (port : String) (p : Packet D)
      → r.input_policy ≡ latest
      → let result = prepare_invocation event_payload r port p in
        let table = assign port p r.latest_packets in
        (result.node.latest_packets ≡ table)
        × (((port ≡ trigger r)
              × Required r.inputs table
              × ((xs : PacketSet D) × (result.inputs ≡ some xs)
                  × ((name : String)
                      → find name xs ≡ (if listed name r.inputs then find name table else none))))
            ⊎ ((¬ ((port ≡ trigger r) × Required r.inputs table)) × (result.inputs ≡ none)))
  unfolding prepare_invocation prepare_by prepare_latest find
  latest_lem r port p h = rw h (
    refl,
    latest_inputs_cases r.inputs (assign port p r.latest_packets) (port =? trigger r)
        (port ≡ trigger r) (eq_iff port (trigger r)),
  )
