-- ===== src/Runner/Sync/Collect.antt =====
-- Moving the packets of one timestamp from the pending packets to an input set.
use rk_avp.Prelude.{
  ◌≡◌, refl, ◌∙◌, Bool, true, false, ◌||◌, List, [], ◌∷◌, Option, none, some, String, ℤ, eqb_ℤ_iff,
  ◌=?◌, string_keys, int_keys, arith, eq_iff, All, All-map,
}
use rk_avp.Prelude.Maps.{assign, contains, is_some}
use rk_avp.Packet.{Packet}
use rk_avp.Node.Contract.{PortSpec, sync}
use rk_avp.Runner.Sync.{
  RuntimeNode, Pending, PacketSet, pending_at, slot, moved, collect, prune_impossible_sync_packets,
  put,
}
use rk_avp.Runner.Sync.Slots.{pending_at-erase, pending_at-put, All-emplace, contains-emplace}
use rk_avp.Runner.Sync.Prune.{pruned_at}

module _ {D : Type 0} where
  -- Every pending packet stands under its own timestamp.
  abbrev pub Stamped : Pending D → Type 0
  Stamped pending =
      (name : String) (ts : ℤ) (p : Packet D)
      → pending_at pending name ts ≡ some p
      → p.timestamp.microseconds ≡ ts

  -- One port's packet is pending, or is among the inputs.
  abbrev pub has : ℤ → Pending D × PacketSet D → String → Bool
  has ts acc name = is_some (pending_at acc.0 name ts) || contains name acc.1

  -- What moving one port's packet does.
  record Moved (name : String) (ts : ℤ) (acc acc' : Pending D × PacketSet D) : Type 0 where
    aligned :
        Stamped acc.0
        → All (λ x. x.1.timestamp.microseconds ≡ ts) acc.1
        → All (λ x. x.1.timestamp.microseconds ≡ ts) acc'.1
    stamped : Stamped acc.0 → Stamped acc'.0
    same : (name' : String) → has ts acc' name' ≡ has ts acc name'
    grows : (name' : String) → contains name' acc.1 ≡ true → contains name' acc'.1 ≡ true
    own : contains name acc'.1 ≡ has ts acc name
    taken : pending_at acc'.0 name ts ≡ none
    shrinks :
        (name' : String) → pending_at acc.0 name' ts ≡ none → pending_at acc'.0 name' ts ≡ none
    others :
        (name' : String) (ts' : ℤ)
        → (ts =? ts') ≡ false
        → pending_at acc'.0 name' ts' ≡ pending_at acc.0 name' ts'

  moved-Moved :
      (name : String) (ts : ℤ) (o : Option (Packet D)) (acc : Pending D × PacketSet D)
      → pending_at acc.0 name ts ≡ o
      → Moved name ts acc (moved name ts o acc)
  moved-Moved name ts none acc e = record {
    aligned = λ s a. a;
    stamped = λ s. s;
    same = λ name'. refl;
    grows = λ name' h. h;
    own = rw e;
    taken = e;
    shrinks = λ name' h. h;
    others = λ name' ts' h. refl;
  }
  moved-Moved name ts (some p) (pending, inputs) e = record {
    aligned =
        λ s a. All-emplace (λ q. q.timestamp.microseconds ≡ ts) name p inputs (s name ts p e) a;
    stamped = λ s name' ts' q h.
        s name' ts' q (ground (arith, pending_at-erase name name' ts ts' pending));
    same = λ name'. ground (
      arith,
      pending_at-erase name name' ts ts pending,
      contains-emplace name name' p inputs,
      eq_iff name name',
    );
    grows = λ name' h. ground (arith, contains-emplace name name' p inputs);
    own = ground (arith, contains-emplace name name p inputs, eq_iff name name);
    taken = ground (arith, pending_at-erase name name ts ts pending, eq_iff name name);
    shrinks = λ name' h. ground (arith, pending_at-erase name name' ts ts pending);
    others = λ name' ts' h. ground (arith, pending_at-erase name name' ts ts' pending);
  }

  pub Stamped-put :
      (port : String) (p : Packet D) (pending : Pending D)
      → Stamped pending
      → Stamped (assign port (put p.timestamp.microseconds p (slot port pending)) pending)
  Stamped-put port p pending s name ts q h = ground (
    arith,
    h,
    pending_at-put port name p.timestamp.microseconds ts p pending,
    s name ts q,
    eqb_ℤ_iff p.timestamp.microseconds ts,
  )

  pub Stamped-prune :
      (r : RuntimeNode D)
      → r.input_policy ≡ sync
      → Stamped r.pending
      → Stamped (prune_impossible_sync_packets r).0.pending
  Stamped-prune r h s name ts p e = s name ts p (ground (arith, e, pruned_at r name ts h))

  -- What moving the packets of all ports does.
  pub record Collected (specs : List PortSpec) (ts : ℤ) (acc acc' : Pending D × PacketSet D)
      : Type 0 where
    pub aligned :
        Stamped acc.0
        → All (λ x. x.1.timestamp.microseconds ≡ ts) acc.1
        → All (λ x. x.1.timestamp.microseconds ≡ ts) acc'.1
    pub stamped : Stamped acc.0 → Stamped acc'.0
    pub grows : (name' : String) → contains name' acc.1 ≡ true → contains name' acc'.1 ≡ true
    pub complete :
        All (λ (s : PortSpec). has ts acc s.name ≡ true → contains s.name acc'.1 ≡ true) specs
    pub taken : All (λ (s : PortSpec). pending_at acc'.0 s.name ts ≡ none) specs
    pub shrinks :
        (name' : String) → pending_at acc.0 name' ts ≡ none → pending_at acc'.0 name' ts ≡ none
    pub others :
        (name' : String) (ts' : ℤ)
        → (ts =? ts') ≡ false
        → pending_at acc'.0 name' ts' ≡ pending_at acc.0 name' ts'

  pub collect-Collected :
      (specs : List PortSpec) (ts : ℤ) (acc : Pending D × PacketSet D)
      → Collected specs ts acc (collect specs ts acc)
  unfolding collect
  collect-Collected [] ts acc = record {
    aligned = λ s a. a;
    stamped = λ s. s;
    grows = λ name' h. h;
    complete = tt;
    taken = tt;
    shrinks = λ name' h. h;
    others = λ name' ts' h. refl;
  }
  collect-Collected (x ∷ specs) ts acc =
      let acc' = moved x.name ts (pending_at acc.0 x.name ts) acc in
      let m : Moved x.name ts acc acc' =
        moved-Moved x.name ts (pending_at acc.0 x.name ts) acc refl in
      let c : Collected specs ts acc' (collect specs ts acc') = collect-Collected specs ts acc' in
      record {
        aligned = λ s a. c.aligned (m.stamped s) (m.aligned s a);
        stamped = λ s. c.stamped (m.stamped s);
        grows = λ name' h. c.grows name' (m.grows name' h);
        complete = (
          (λ h. c.grows x.name (m.own ∙ h)),
          All-map _ _ specs (λ s f h. f (m.same s.name ∙ h)) c.complete,
        );
        taken = (c.shrinks x.name m.taken, c.taken);
        shrinks = λ name' h. c.shrinks name' (m.shrinks name' h);
        others = λ name' ts' h. c.others name' ts' h ∙ m.others name' ts' h;
      }
