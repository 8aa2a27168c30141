-- ===== src/Graph/Acyclic/Sound.antt =====
-- The search of `ValidateAcyclic` that finds nothing, and the rank of the nodes it leaves.
use rk_avp.Prelude.{
  ℕ, zero, suc, ◌≤◌, ◌<◌, ◌≡◌, refl, sym, subst, ◌∙◌, ◌⊎◌, Bool, true, false, List, [], ◌∷◌, Option,
  none, some, String, ◌=?◌, string_keys, if◌then◌else◌, All, length, arith, eq_iff, inl, inr,
  Bool-cases,
}
use rk_avp.Prelude.Names.{member, remove, remove_absent, All-member}
use rk_avp.Graph.{EdgeConfig}
use rk_avp.Graph.Acyclic.{
  Marks, adjacent, name_failed, go_on, visit_each, leave, visit, visit_roots, no_marks, find_cycle,
  Reaches, edge, further,
}

pub go_on-true :
    (r : Option (Bool × Marks)) (later : Marks → Option (Bool × Marks)) (m' : Marks)
    → go_on r later ≡ some (true, m')
    → (k : Marks) × (r ≡ some (true, k)) × (later k ≡ some (true, m'))
go_on-true none later m' h = absurd (cc)
go_on-true (some (false, m)) later m' h = absurd (cc)
go_on-true (some (true, m)) later m' h = (m, refl, h)

name_failed-none :
    (n : String) (r : Option (Bool × Marks)) (later : Marks → Option (Option String))
    → name_failed n r later ≡ some none
    → (k : Marks) × (r ≡ some (true, k)) × (later k ≡ some none)
name_failed-none n none later h = absurd (cc)
name_failed-none n (some (false, m)) later h = absurd (cc)
name_failed-none n (some (true, m)) later h = (m, refl, h)

leave-true :
    (n : String) (r : Option (Bool × Marks)) (m' : Marks)
    → leave n r ≡ some (true, m')
    → (k : Marks) × (r ≡ some (true, k))
      × (m' ≡ record k { visiting = remove n k.visiting; visited = n ∷ k.visited })
unfolding leave
leave-true n none m' h = absurd (cc)
leave-true n (some (false, m)) m' h = absurd (cc)
leave-true n (some (true, m)) m' h = (m, refl, cc)

-- A visit that succeeds finds the node completed, or completes it.
pub visit-true :
    (fuel : ℕ) (es : List EdgeConfig) (n : String) (m m' : Marks)
    → visit (suc fuel) es n m ≡ some (true, m')
    → (member n m.visiting ≡ false)
      × (((member n m.visited ≡ true) × (m ≡ m'))
          ⊎ ((member n m.visited ≡ false)
              × ((k : Marks) × (visit_each
                      (visit fuel es)
                      (adjacent es n)
                      (record m { visiting = n ∷ m.visiting })
                    ≡ some (true, k))
                  × (m' ≡ record k { visiting = remove n k.visiting; visited = n ∷ k.visited }))))
unfolding visit
visit-true fuel es n m m' h = elim (Bool-cases (member n m.visiting)) [
  | inl on_path ↦ absurd (let e = rw on_path at h in cc)
  | inr off_path ↦ elim (Bool-cases (member n m.visited)) [
    | inl old ↦ (off_path, inl (old, ground arith))
    | inr new ↦ (off_path, inr (new, leave-true n _ m' (rw (off_path, new) at h)))
  ]
]

module _ (es : List EdgeConfig) where
  -- In order of completion, last first: every target of a node was completed before it.
  abbrev pub Topo : List String → Type 0
  Topo [] = Unit {0}
  Topo (n ∷ ns) = All (λ m. member m ns ≡ true) (adjacent es n) × (member n ns ≡ false) × Topo ns

  abbrev pub Good : Marks → Type 0
  Good m = Topo m.visited × All (λ v. member v m.visited ≡ false) m.visiting

  abbrev Sub : List String → List String → Type 0
  Sub xs ys = (x : String) → member x xs ≡ true → member x ys ≡ true

  -- What a visit that succeeds leaves.
  pub record Post (m m' : Marks) : Type 0 where
    pub good : Good m'
    pub path : m'.visiting ≡ m.visiting
    pub grows : Sub m.visited m'.visited

  abbrev Visits : (String → Marks → Option (Bool × Marks)) → Type 0
  Visits f =
      (n : String) (m m' : Marks)
      → f n m ≡ some (true, m')
      → Good m
      → Post m m' × (member n m'.visited ≡ true)

  Post-refl : (m : Marks) → Good m → Post m m
  Post-refl m g = record { good = g; path = refl; grows = λ x h. h }

  Post-trans : {m k m' : Marks} → Post m k → Post k m' → Post m m'
  Post-trans p q = record {
    good = q.good;
    path = q.path ∙ p.path;
    grows = λ x h. q.grows x (p.grows x h);
  }

  visit_each-Post :
      (f : String → Marks → Option (Bool × Marks))
      → Visits f
      → (ns : List String) (m m' : Marks) → visit_each f ns m ≡ some (true, m')
      → Good m
      → Post m m' × All (λ n. member n m'.visited ≡ true) ns
  unfolding visit_each
  visit_each-Post f v [] m m' h g =
      let e : m ≡ m' = cc in subst (λ k. Post m k × Unit {0}) e (Post-refl m g, tt)
  visit_each-Post f v (n ∷ ns) m m' h g =
      let (k, first, later) = go_on-true (f n m) (visit_each f ns) m' h in
      let (p, seen) = v n m k first g in
      let (q, all_seen) = visit_each-Post f v ns k m' later p.good in
      (Post-trans p q, (q.grows n seen, all_seen))

  All-without :
      (n : String) (ns vs : List String)
      → member n vs ≡ false
      → All (λ v. member v ns ≡ false) vs
      → All (λ v. member v (n ∷ ns) ≡ false) vs
  unfolding member
  All-without n ns [] h a = tt
  All-without n ns (v ∷ vs) h a =
      (ground (arith, eq_iff v n, eq_iff n v), All-without n ns vs (ground arith) a.1)

  grows-cons : (n : String) (ns : List String) → Sub ns (n ∷ ns)
  unfolding member
  grows-cons n ns x h = ground arith

  -- The marks after a node is completed whose targets all were.
  complete-Post :
      (n : String) (m k : Marks)
      → member n m.visiting ≡ false
      → Post (record m { visiting = n ∷ m.visiting }) k
      → All (λ t. member t k.visited ≡ true) (adjacent es n)
      → let m' : Marks = record k { visiting = remove n k.visiting; visited = n ∷ k.visited } in
        Post m m' × (member n m'.visited ≡ true)
  complete-Post n m k off_path p all_seen = (
    record { good = ((all_seen, unseen.0, p.good.0), still_unseen); path = path; grows = grows },
    self,
  )
    where
      unseen : All (λ v. member v k.visited ≡ false) (n ∷ m.visiting)
      unseen = subst (All (λ v. member v k.visited ≡ false)) p.path p.good.1

      path : remove n k.visiting ≡ m.visiting
      path = rw p.path (unfold remove in ground (arith, eq_iff n n, remove_absent n m.visiting))

      still_unseen : All (λ v. member v (n ∷ k.visited) ≡ false) (remove n k.visiting)
      still_unseen =
          subst (All (λ v. member v (n ∷ k.visited) ≡ false)) (sym path)
            (All-without n k.visited m.visiting off_path unseen.1)

      grows : Sub m.visited (n ∷ k.visited)
      grows x h = grows-cons n k.visited x (p.grows x h)

      self : member n (n ∷ k.visited) ≡ true
      self = unfold member in ground (arith, eq_iff n n)

  visit-Post : (fuel : ℕ) → Visits (visit fuel es)
  visit-Post zero n m m' h g = absurd (unfold visit in cc)
  visit-Post (suc fuel) n m m' h g =
      let (off_path, cases) = visit-true fuel es n m m' h in
      elim cases [
        | inl (old, e) ↦ subst (λ k. Post m k × (member n k.visited ≡ true)) e (Post-refl m g, old)
        | inr (new, (k, inner, e)) ↦
            let (p, all_seen) =
              visit_each-Post (visit fuel es) (visit-Post fuel) (adjacent es n) _ k inner
                (g.0, (new, g.1)) in
            subst (λ j. Post m j × (member n j.visited ≡ true)) (sym e)
              (complete-Post n m k off_path p all_seen)
      ]

  -- The number of nodes completed no later than this one.
  pub rank : List String → String → ℕ
  rank [] n = 0
  rank (v ∷ vs) n = if v =? n then suc (length vs) else rank vs n

  rank-le : (vs : List String) (n : String) → rank vs n ≤ length vs
  unfolding rank
  rank-le [] n = omega arith
  rank-le (v ∷ vs) n = ground (arith, rank-le vs n)

  Topo-targets :
      (vs : List String) (n t : String)
      → Topo vs
      → member n vs ≡ true
      → member t (adjacent es n) ≡ true
      → (member t vs ≡ true) × (rank vs t < rank vs n)
  unfolding member rank
  Topo-targets [] n t h i e = absurd (cc)
  Topo-targets (v ∷ vs) n t (targets, new, later) i e = elim (Bool-cases (v =? n)) [
    | inl here ↦
        let same : v ≡ n = (eq_iff v n).0 here in
        let seen : member t vs ≡ true =
          All-member (λ m. member m vs ≡ true) (adjacent es v) t targets (rw same e) in
        ground (arith, rank-le vs t, eq_iff v t)
    | inr there ↦
        let (seen, falls) = Topo-targets vs n t later (ground arith) e in ground (arith, eq_iff v t)
  ]

  Reaches-falls :
      (vs : List String) {n t : String}
      → Topo vs
      → member n vs ≡ true
      → Reaches es n t
      → (member t vs ≡ true) × (rank vs t < rank vs n)
  Reaches-falls vs h i (edge n t e) = Topo-targets vs n t h i e
  Reaches-falls vs h i (further {n} {m} k r e) =
      let (seen, falls) = Reaches-falls vs h i r in
      let (seen', falls') = Topo-targets vs m k h seen e in (seen', omega arith)

  visit_roots-Post :
      (f : String → Marks → Option (Bool × Marks))
      → Visits f
      → (ns : List String) (m : Marks) → visit_roots f ns m ≡ some none
      → Good m
      → (m' : Marks) × Post m m' × All (λ n. member n m'.visited ≡ true) ns
  unfolding visit_roots
  visit_roots-Post f v [] m h g = (m, Post-refl m g, tt)
  visit_roots-Post f v (n ∷ ns) m h g =
      let (k, first, later) = name_failed-none n (f n m) (visit_roots f ns) h in
      let (p, seen) = v n m k first g in
      let (m', q, all_seen) = visit_roots-Post f v ns k later p.good in
      (m', Post-trans p q, (q.grows n seen, all_seen))

  -- When the search ends and names no node, no node of the graph reaches itself over forward edges.
  pub find_cycle_sound :
      (fuel : ℕ) (ns : List String) (n : String)
      → find_cycle fuel es ns ≡ some none
      → member n ns ≡ true
      → ¬ Reaches es n n
  unfolding find_cycle
  find_cycle_sound fuel ns n h i r =
      let (m', p, all_seen) =
        visit_roots-Post (visit fuel es) (visit-Post fuel) ns no_marks h (tt, tt) in
      let seen = All-member (λ v. member v m'.visited ≡ true) ns n all_seen i in
      let falls = Reaches-falls m'.visited p.good.0 seen r in omega (arith, falls.1)
