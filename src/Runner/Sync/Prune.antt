-- ===== src/Runner/Sync/Prune.antt =====
-- What pruning takes away from a node with the `sync` policy, and what it leaves.
use rk_avp.Prelude.{
  ◌≡◌, ◌↔◌, ◌⊎◌, refl, ◌∙◌, true, false, ◌&&◌, ◌||◌, List, [], ◌∷◌, none, String, if◌then◌else◌, ℤ,
  eqb_ℤ_iff, ◌=?◌, string_keys, int_keys, arith, Bool-cases, inl, inr,
}
use rk_avp.Prelude.Maps.{find, emplace, contains, is_some, find-assign}
use rk_avp.Prelude.Names.{member}
use rk_avp.Timestamp.{Timestamp}
use rk_avp.Packet.{Packet}
use rk_avp.Node.Contract.{PortSpec, sync}
use rk_avp.Runner.Sync.{
  RuntimeNode, Pending, pending_at, past, impossible, candidates, keys_of, erase_everywhere,
  prune_each, prune_impossible_sync_packets, prune_by,
}
use rk_avp.Runner.Sync.Slots.{pending_at-erase_everywhere}

module _ {D : Type 0} where
  -- Whether the timestamp is impossible does not depend on the packets of other timestamps.
  impossible-erase_everywhere :
      (specs : List PortSpec) (pending : Pending D) (closed_ports : List String)
      (bounds : List (String × Timestamp)) (ts ts' : ℤ)
      → (ts =? ts') ≡ false
      → impossible specs (erase_everywhere ts pending) closed_ports bounds ts'
        ≡ impossible specs pending closed_ports bounds ts'
  unfolding impossible
  impossible-erase_everywhere [] pending closed_ports bounds ts ts' h = refl
  impossible-erase_everywhere (s ∷ ss) pending closed_ports bounds ts ts' h =
      rw (pending_at-erase_everywhere s.name ts ts' pending, h)
        (ground (arith, impossible-erase_everywhere ss pending closed_ports bounds ts ts' h))

  -- Pruning of a list of candidates removes at each port just the impossible ones.
  pending_at-prune_each :
      (specs : List PortSpec) (closed_ports : List String) (bounds : List (String × Timestamp))
      (set : List (ℤ × Unit {0})) (pending : Pending D) (name : String) (ts : ℤ)
      → pending_at (prune_each specs closed_ports bounds set pending).0 name ts ≡ (
          if contains ts set && impossible specs pending closed_ports bounds ts
          then none
          else pending_at pending name ts)
  unfolding prune_each contains find
  pending_at-prune_each specs closed_ports bounds [] pending name ts = refl
  pending_at-prune_each specs closed_ports bounds ((k, _) ∷ set) pending name ts =
      elim (Bool-cases (impossible specs pending closed_ports bounds k)) [
        | inl gone ↦ rw gone (
            ground (
              arith,
              gone,
              pending_at-prune_each specs closed_ports bounds set (erase_everywhere k pending) name
                  ts,
              pending_at-erase_everywhere name k ts pending,
              impossible-erase_everywhere specs pending closed_ports bounds k ts,
              eqb_ℤ_iff k ts,
            ))
        | inr stays ↦ rw stays (
            ground (
              arith,
              stays,
              pending_at-prune_each specs closed_ports bounds set pending name ts,
              eqb_ℤ_iff k ts,
            ))
      ]

contains-emplace_unit :
    (k j : ℤ) (m : List (ℤ × Unit {0})) → contains j (emplace k tt m).0 ≡ (k =? j || contains j m)
unfolding emplace contains
contains-emplace_unit k j m = ground (arith, find-assign k j tt m, eqb_ℤ_iff k j)

module _ {D : Type 0} where
  contains-keys_of :
      (m : List (ℤ × Packet D)) (set : List (ℤ × Unit {0})) (ts : ℤ)
      → contains ts (keys_of m set) ≡ (contains ts set || is_some (find ts m))
  unfolding keys_of find
  contains-keys_of [] set ts = ground arith
  contains-keys_of ((k, p) ∷ m) set ts =
      ground (arith, contains-keys_of m (emplace k tt set).0 ts, contains-emplace_unit k ts set)

  candidates_keep :
      (pending : Pending D) (set : List (ℤ × Unit {0})) (ts : ℤ)
      → contains ts set ≡ true
      → contains ts (candidates pending set) ≡ true
  unfolding candidates
  candidates_keep [] set ts h = h
  candidates_keep ((j, m) ∷ pending) set ts h =
      candidates_keep pending (keys_of m set) ts (ground (arith, contains-keys_of m set ts))

  contains-candidates :
      (pending : Pending D) (set : List (ℤ × Unit {0})) (name : String) (ts : ℤ)
      → is_some (pending_at pending name ts) ≡ true
      → contains ts (candidates pending set) ≡ true
  unfolding candidates find
  contains-candidates [] set name ts h = absurd (cc)
  contains-candidates ((j, m) ∷ pending) set name ts h = elim (Bool-cases (j =? name)) [
    | inl here ↦
        candidates_keep pending (keys_of m set) ts
          (ground (arith, contains-keys_of m set ts, rw here at h))
    | inr there ↦ contains-candidates pending (keys_of m set) name ts (rw there at h)
  ]

  -- Some required port has no packet of the timestamp, and its stream is closed or its bound past.
  abbrev pub Hopeless : List PortSpec → RuntimeNode D → ℤ → Type 0
  Hopeless [] r ts = ⊥
  Hopeless (s ∷ ss) r ts =
      ((s.required ≡ true)
        × (pending_at r.pending s.name ts ≡ none)
        × ((member s.name r.closed_ports ≡ true) ⊎ (past ts (find s.name r.bounds) ≡ true)))
      ⊎ Hopeless ss r ts

  impossible-Hopeless :
      (specs : List PortSpec) (r : RuntimeNode D) (ts : ℤ)
      → (impossible specs r.pending r.closed_ports r.bounds ts ≡ true) ↔ Hopeless specs r ts
  unfolding impossible
  impossible-Hopeless [] r ts = ((λ h. absurd (cc)), (λ h. absurd h))
  impossible-Hopeless (s ∷ ss) r ts =
      let (to, back) = impossible-Hopeless ss r ts in
      ((λ h. ground (arith, to)), (λ h. ground (arith, back)))

  pub pruned_at :
      (r : RuntimeNode D) (name : String) (ts : ℤ)
      → r.input_policy ≡ sync
      → pending_at (prune_impossible_sync_packets r).0.pending name ts ≡ (
          if contains ts (candidates r.pending [])
            && impossible r.inputs r.pending r.closed_ports r.bounds ts
          then none
          else pending_at r.pending name ts)
  unfolding prune_impossible_sync_packets
  pruned_at r name ts h =
      rw (h, prune_by)
        (pending_at-prune_each r.inputs r.closed_ports r.bounds (candidates r.pending []) r.pending
          name ts)

  -- Pruning a `sync` node drops the packets of a timestamp at every port when the timestamp can
  -- no longer be complete, and leaves all other packets.
  pub prune_lem :
      (r : RuntimeNode D) (name : String) (ts : ℤ)
      → r.input_policy ≡ sync
      → let r' = (prune_impossible_sync_packets r).0 in
        (Hopeless r.inputs r ts × (pending_at r'.pending name ts ≡ none))
        ⊎ ((¬ Hopeless r.inputs r ts)
            × (pending_at r'.pending name ts ≡ pending_at r.pending name ts))
  prune_lem r name ts h =
      let (to, back) = impossible-Hopeless r.inputs r ts in
      let found = contains-candidates r.pending [] name ts in
      elim (Bool-cases (impossible r.inputs r.pending r.closed_ports r.bounds ts)) [
        | inl e ↦ inl (to e, pruned_at r name ts h ∙ ground (arith, found, e))
        | inr e ↦ inr (
          (λ hopeless. (let e' = back hopeless in cc)),
          pruned_at r name ts h ∙ ground (arith, e),
        )
      ]
