-- ===== src/Runner/Sync/Aligned.antt =====
-- The input sets that a node with the `sync` policy is given.
use rk_avp.Prelude.{
  ℕ, ◌≡◌, ◌⊎◌, refl, sym, subst, ◌∙◌, true, false, ◌&&◌, not, List, [], ◌∷◌, Option, none, some,
  String, ℤ, string_keys, int_keys, arith, Bool-cases, inl, inr, All, Bool, ◌||◌, ◌=?◌, eq_iff,
  if◌then◌else◌,
}
use rk_avp.Prelude.Maps.{contains, is_some, find, emplace, find-assign, or_else}
use rk_avp.Timestamp.{is_range_value}
use rk_avp.Packet.{Packet, ControlEvent, is_end_of_stream}
use rk_avp.Node.Contract.{PortSpec, sync}
use rk_avp.Runner.Sync.{
  RuntimeNode, Pending, PacketSet, pending_at, slot, collect, is_ready, first_ready, dispatch_sync,
  prepare_invocation, prepare_sync, eos_inputs, eos_packet, arrived, prepare_by,
  prune_impossible_sync_packets, all_closed,
}
use rk_avp.Runner.Sync.Collect.{Stamped, has, collect-Collected, Stamped-put, Stamped-prune}

module _ {D : Type 0} where
  is_ready-All :
      (specs : List PortSpec) (pending : Pending D) (ts : ℤ)
      → is_ready specs pending ts ≡ true
      → All
          (λ (s : PortSpec). s.required ≡ true → is_some (pending_at pending s.name ts) ≡ true)
          specs
  unfolding is_ready
  is_ready-All [] pending ts h = tt
  is_ready-All (s ∷ ss) pending ts h =
      ((λ q. ground arith), is_ready-All ss pending ts (ground arith))

  first_ready-is_ready :
      (specs : List PortSpec) (pending : Pending D) (m : List (ℤ × Packet D)) (ts : ℤ)
      → first_ready specs pending m ≡ some ts
      → is_ready specs pending ts ≡ true
  unfolding first_ready
  first_ready-is_ready specs pending [] ts h = absurd (cc)
  first_ready-is_ready specs pending ((k, q) ∷ m) ts h =
      elim (Bool-cases (is_ready specs pending k)) [
        | inl e ↦ let same : k ≡ ts = (let h' = rw e at h in ground (arith, h')) in rw (← same) e
        | inr e ↦ first_ready-is_ready specs pending m ts (rw e at h)
      ]

  -- An input set of one timestamp, with a packet for every required port; nothing of that
  -- timestamp is left at the ports.
  pub record IsAligned (specs : List PortSpec) (ts : ℤ) (pending : Pending D) (xs : PacketSet D)
      : Type 0 where
    pub same_timestamp : All (λ x. x.1.timestamp.microseconds ≡ ts) xs
    pub complete : All (λ (s : PortSpec). s.required ≡ true → contains s.name xs ≡ true) specs
    pub taken : All (λ (s : PortSpec). pending_at pending s.name ts ≡ none) specs

  collect-IsAligned :
      (specs : List PortSpec) (ts : ℤ) (pending : Pending D)
      → Stamped pending
      → is_ready specs pending ts ≡ true
      → IsAligned specs ts (collect specs ts (pending, [])).0 (collect specs ts (pending, [])).1
  collect-IsAligned specs ts pending s h =
      let c = collect-Collected specs ts (pending, []) in
      record {
        same_timestamp = c.aligned s tt;
        complete = combine specs (is_ready-All specs pending ts h) c.complete;
        taken = c.taken;
      }
    where
      inputs : PacketSet D
      inputs = (collect specs ts (pending, [])).1

      combine :
          (ss : List PortSpec)
          → All
              (λ (s : PortSpec). s.required ≡ true → is_some (pending_at pending s.name ts) ≡ true)
              ss
          → All
              (λ (s : PortSpec). has ts (pending, []) s.name ≡ true → contains s.name inputs ≡ true)
              ss
          → All (λ (s : PortSpec). s.required ≡ true → contains s.name inputs ≡ true) ss
      combine [] a b = tt
      combine (s ∷ ss) a b = ((λ q. b.0 (rw (a.0 q))), combine ss a.1 b.1)

  prune_keeps :
      (r : RuntimeNode D)
      → let r' = (prune_impossible_sync_packets r).0 in
        (r'.inputs ≡ r.inputs)
        × (r'.eos_dispatched ≡ r.eos_dispatched)
        × (r'.input_policy ≡ r.input_policy)
  unfolding prune_impossible_sync_packets
  prune_keeps r = ground arith

  arrived_keeps :
      (r : RuntimeNode D) (port : String) (p : Packet D)
      → let r' = arrived r port p in
        (r'.inputs ≡ r.inputs)
        × (r'.eos_dispatched ≡ r.eos_dispatched)
        × (r'.input_policy ≡ r.input_policy)
  unfolding arrived
  arrived_keeps r port p = ground arith

  Stamped-arrived :
      (r : RuntimeNode D) (port : String) (p : Packet D)
      → Stamped r.pending
      → Stamped (arrived r port p).pending
  unfolding arrived
  Stamped-arrived r port p s = elim (Bool-cases (is_end_of_stream p.event)) [
    | inl e ↦ rw e s
    | inr e ↦ rw e (Stamped-put port p r.pending s)
  ]

  -- The node as the loops of `PrepareInvocation` meet it.
  abbrev settled : RuntimeNode D → String → Packet D → RuntimeNode D
  settled r port p = (prune_impossible_sync_packets (arrived r port p)).0

  abbrev found : RuntimeNode D → String → Option ℤ
  found r' port = first_ready r'.inputs r'.pending (slot port r'.pending)

  Stamped-settled :
      (r : RuntimeNode D) (port : String) (p : Packet D)
      → r.input_policy ≡ sync
      → Stamped r.pending
      → Stamped (settled r port p).pending
  Stamped-settled r port p h s =
      Stamped-prune (arrived r port p) ((arrived_keeps r port p).2 ∙ h) (Stamped-arrived r port p s)

module _ {D : Type 0} (event_payload : ControlEvent → D) where
  -- Whether a port of that name is required.
  abbrev pub is_needed : String → List PortSpec → Bool
  is_needed name [] = false
  is_needed name (s ∷ ss) = s.required && (s.name =? name) || is_needed name ss

  find-eos_inputs :
      (name : String) (ss : List PortSpec) (inputs : PacketSet D)
      → find name (eos_inputs event_payload ss inputs)
        ≡ or_else
            (find name inputs)
            (if is_needed name ss then some (eos_packet event_payload) else none)
  unfolding eos_inputs emplace contains
  find-eos_inputs name [] inputs = ground arith
  find-eos_inputs name (s ∷ ss) inputs = ground (
    arith,
    find-eos_inputs name ss inputs,
    find-eos_inputs name ss (emplace s.name (eos_packet event_payload) inputs).0,
    find-assign s.name name (eos_packet event_payload) inputs,
    eq_iff s.name name,
  )

  -- The end of the stream is passed on when it was not yet and all required ports are closed: an
  -- end-of-stream packet for each required port, and nothing else.
  pub record IsEnd (r r' : RuntimeNode D) (xs : PacketSet D) : Type 0 where
    pub given :
        (name : String)
        → find name xs ≡ (if is_needed name r.inputs then some (eos_packet event_payload) else none)
    pub first : r.eos_dispatched ≡ false
    pub marked : r'.eos_dispatched ≡ true
    pub closed : all_closed r.inputs r'.closed_ports ≡ true

  dispatch_sync-cases :
      (r : RuntimeNode D) (n : ℕ) (o : Option ℤ) (xs : PacketSet D)
      → Stamped r.pending
      → ((ts : ℤ) → o ≡ some ts → is_ready r.inputs r.pending ts ≡ true)
      → (dispatch_sync event_payload r n o).inputs ≡ some xs
      → ((ts : ℤ) × IsAligned r.inputs ts (dispatch_sync event_payload r n o).node.pending xs)
        ⊎ IsEnd r (dispatch_sync event_payload r n o).node xs
  unfolding dispatch_sync find
  dispatch_sync-cases r n (some ts) xs s h e =
      let same : (collect r.inputs ts (r.pending, [])).1 ≡ xs = ground arith in
      inl (ts, rw (← same) (collect-IsAligned r.inputs ts r.pending s (h ts refl)))
  dispatch_sync-cases r n none xs s h e =
      let same : eos_inputs event_payload r.inputs [] ≡ xs = ground arith in
      inr (record {
        given = λ name. rw (← same) (find-eos_inputs name r.inputs []);
        first = ground arith;
        marked = ground arith;
        closed = ground arith;
      })

  -- Either the packet is refused for its timestamp, or the settled node is dispatched.
  prepare-sync_cases :
      (r : RuntimeNode D) (port : String) (p : Packet D)
      → r.input_policy ≡ sync
      → ((prepare_invocation event_payload r port p).node ≡ r)
          × ((prepare_invocation event_payload r port p).inputs ≡ none)
        ⊎ (prepare_invocation event_payload r port p
            ≡ dispatch_sync event_payload
                (settled r port p)
                (prune_impossible_sync_packets (arrived r port p)).1
                (found (settled r port p) port))
  unfolding prepare_invocation prepare_sync
  prepare-sync_cases r port p h =
      rw (h, prepare_by)
        (elim (Bool-cases (not (is_range_value p.timestamp) && not (is_end_of_stream p.event))) [
          | inl e ↦ rw e (inl (refl, refl))
          | inr e ↦ rw e (inr refl)
        ])

  -- What a `sync` node is given is one packet for every required port, all of one timestamp, and
  -- none of that timestamp stays pending at the ports; or it is the end of the stream, one packet
  -- for every required port and nothing else, which is given once, when all required ports are
  -- closed.
  pub prepare_sync_inputs :
      (r : RuntimeNode D) (port : String) (p : Packet D) (xs : PacketSet D)
      → r.input_policy ≡ sync
      → Stamped r.pending
      → (prepare_invocation event_payload r port p).inputs ≡ some xs
      → let r' = (prepare_invocation event_payload r port p).node in
        ((ts : ℤ) × IsAligned r.inputs ts r'.pending xs) ⊎ IsEnd r r' xs
  prepare_sync_inputs r port p xs h s e = elim (prepare-sync_cases r port p h) [
    | inl refused ↦ absurd (let x = refused.1 in cc)
    | inr same ↦ rw same (
        keep (
          dispatch_sync-cases r' n (found r' port) xs (Stamped-settled r port p h s)
            (λ ts t. first_ready-is_ready r'.inputs r'.pending (slot port r'.pending) ts t)
            (rw same at e)))
  ]
    where
      r' : RuntimeNode D
      r' = settled r port p

      n : ℕ
      n = (prune_impossible_sync_packets (arrived r port p)).1

      r'' : RuntimeNode D
      r'' = (dispatch_sync event_payload r' n (found r' port)).node

      same_inputs : r'.inputs ≡ r.inputs
      same_inputs = (prune_keeps (arrived r port p)).0 ∙ (arrived_keeps r port p).0

      same_end : r'.eos_dispatched ≡ r.eos_dispatched
      same_end = (prune_keeps (arrived r port p)).1 ∙ (arrived_keeps r port p).1

      keep :
          ((ts : ℤ) × IsAligned r'.inputs ts r''.pending xs) ⊎ IsEnd r' r'' xs
          → ((ts : ℤ) × IsAligned r.inputs ts r''.pending xs) ⊎ IsEnd r r'' xs
      keep (inl (ts, a)) = inl (ts, subst (λ i. IsAligned i ts r''.pending xs) same_inputs a)
      keep (inr end) = inr (record {
        given =
            subst
              (λ i.
                (name : String)
                → find name xs
                  ≡ (if is_needed name i then some (eos_packet event_payload) else none))
              same_inputs end.given;
        first = sym same_end ∙ end.first;
        marked = end.marked;
        closed = subst (λ i. all_closed i r''.closed_ports ≡ true) same_inputs end.closed;
      })
