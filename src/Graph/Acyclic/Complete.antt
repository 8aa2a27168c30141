-- ===== src/Graph/Acyclic/Complete.antt =====
-- The search of `ValidateAcyclic` that names a node, and the path that it stands on.
use rk_avp.Prelude.{
  ℕ, zero, suc, ◌≡◌, refl, Bool, true, false, List, [], ◌∷◌, Option, none, some, String, All, arith,
  inl, inr, Bool-cases, subst, sym, ◌⊎◌, eq_iff, ◌∙◌,
}
use rk_avp.Prelude.Names.{member, remove, remove_absent, All-member}
use rk_avp.Graph.{EdgeConfig}
use rk_avp.Graph.Acyclic.{
  Marks, adjacent, go_on, name_failed, visit_each, leave, visit, visit_roots, no_marks, find_cycle,
  Reaches, edge, further,
}
use rk_avp.Graph.Acyclic.Sound.{go_on-true, visit-true}

-- A visit that succeeds leaves the path as it was.
abbrev pub KeepsPath : (String → Marks → Option (Bool × Marks)) → Type 0
KeepsPath f = (n : String) (m m' : Marks) → f n m ≡ some (true, m') → m'.visiting ≡ m.visiting

visit_each-path :
    (f : String → Marks → Option (Bool × Marks))
    → KeepsPath f
    → (ns : List String) (m m' : Marks) → visit_each f ns m ≡ some (true, m')
    → m'.visiting ≡ m.visiting
unfolding visit_each
visit_each-path f v [] m m' h = cc
visit_each-path f v (n ∷ ns) m m' h =
    let (k, first, later) = go_on-true (f n m) (visit_each f ns) m' h in
    visit_each-path f v ns k m' later ∙ v n m k first

pub visit-path : (fuel : ℕ) (es : List EdgeConfig) → KeepsPath (visit fuel es)
visit-path zero es n m m' h = absurd (unfold visit in cc)
visit-path (suc fuel) es n m m' h =
    let (off_path, cases) = visit-true fuel es n m m' h in
    elim cases [
      | inl (old, e) ↦ cc
      | inr (new, (k, inner, e)) ↦
          let p : k.visiting ≡ n ∷ m.visiting =
            visit_each-path (visit fuel es) (visit-path fuel es) (adjacent es n) _ k inner in
          subst (λ (j : Marks). j.visiting ≡ m.visiting) (sym e)
            (rw p
              (unfold remove in ground (arith, eq_iff n n, remove_absent n m.visiting off_path)))
    ]

abbrev pub Cycle : List EdgeConfig → Type 0
Cycle es = (n : String) × Reaches es n n

module _ (es : List EdgeConfig) where
  -- Every node on the path reaches the node about to be visited.
  abbrev FindsCycle : (String → Marks → Option (Bool × Marks)) → Type 0
  FindsCycle f =
      (n : String) (m m' : Marks)
      → f n m ≡ some (false, m')
      → All (λ v. Reaches es v n) m.visiting
      → Cycle es

  All-further :
      (n t : String) (vs : List String)
      → member t (adjacent es n) ≡ true
      → All (λ v. Reaches es v n) vs
      → All (λ v. Reaches es v t) vs
  All-further n t [] e a = tt
  All-further n t (v ∷ vs) e a = (further t a.0 e, All-further n t vs e a.1)

  -- The loop over targets of `n`, each of which is a target of `n`.
  visit_each-Cycle :
      (f : String → Marks → Option (Bool × Marks))
      → KeepsPath f
      → FindsCycle f
      → (n : String) (ns : List String) (m m' : Marks)
      → All (λ t. member t (adjacent es n) ≡ true) ns
      → visit_each f ns m ≡ some (false, m')
      → (vs : List String) → m.visiting ≡ n ∷ vs
      → All (λ v. Reaches es v n) vs
      → Cycle es
  unfolding visit_each
  visit_each-Cycle f keeps finds n [] m m' ts h vs e a = absurd (cc)
  visit_each-Cycle f keeps finds n (t ∷ ns) m m' ts h vs e a =
      elim (go_on-false (f t m) (visit_each f ns) m' h) [
        | inl bad ↦
            finds t m m' bad
              (subst (All (λ v. Reaches es v t)) (sym e) (edge n t ts.0, All-further n t vs ts.0 a))
        | inr (k, first, later) ↦
            visit_each-Cycle f keeps finds n ns k m' ts.1 later vs (keeps t m k first ∙ e) a
      ]
    where
      go_on-false :
          (r : Option (Bool × Marks)) (later : Marks → Option (Bool × Marks)) (m' : Marks)
          → go_on r later ≡ some (false, m')
          → (r ≡ some (false, m'))
            ⊎ ((k : Marks) × (r ≡ some (true, k)) × (later k ≡ some (false, m')))
      go_on-false none later m' h = absurd (cc)
      go_on-false (some (false, m)) later m' h = inl h
      go_on-false (some (true, m)) later m' h = inr (m, refl, h)

  All-self :
      (xs ys : List String)
      → ((x : String) → member x xs ≡ true → member x ys ≡ true)
      → All (λ t. member t ys ≡ true) xs
  unfolding member
  All-self [] ys h = tt
  All-self (x ∷ xs) ys h =
      (h x (ground (arith, eq_iff x x)), All-self xs ys (λ y i. h y (ground arith)))

  leave-false :
      (n : String) (r : Option (Bool × Marks)) (m' : Marks)
      → leave n r ≡ some (false, m')
      → r ≡ some (false, m')
  unfolding leave
  leave-false n none m' h = absurd (cc)
  leave-false n (some (false, m)) m' h = h
  leave-false n (some (true, m)) m' h = absurd (cc)

  visit-Cycle : (fuel : ℕ) → FindsCycle (visit fuel es)
  unfolding visit
  visit-Cycle zero n m m' h a = absurd (cc)
  visit-Cycle (suc fuel) n m m' h a = elim (Bool-cases (member n m.visiting)) [
    | inl on_path ↦ (n, All-member (λ v. Reaches es v n) m.visiting n a on_path)
    | inr off_path ↦ elim (Bool-cases (member n m.visited)) [
      | inl old ↦ absurd (let e = rw (off_path, old) at h in cc)
      | inr new ↦
          visit_each-Cycle (visit fuel es) (visit-path fuel es) (visit-Cycle fuel) n (adjacent es n)
            _ m' (All-self (adjacent es n) (adjacent es n) (λ x i. i))
            (leave-false n _ m' (rw (off_path, new) at h)) m.visiting refl a
    ]
  ]

  visit_roots-Cycle :
      (f : String → Marks → Option (Bool × Marks))
      → KeepsPath f
      → FindsCycle f
      → (ns : List String) (m : Marks) (n : String) → visit_roots f ns m ≡ some (some n)
      → m.visiting ≡ []
      → Cycle es
  unfolding visit_roots
  visit_roots-Cycle f keeps finds [] m n h e = absurd (cc)
  visit_roots-Cycle f keeps finds (r ∷ ns) m n h e =
      elim (root-cases r (f r m) (visit_roots f ns) n h) [
        | inl (m', bad) ↦ finds r m m' bad (subst (All (λ v. Reaches es v r)) (sym e) tt)
        | inr (k, first, later) ↦
            visit_roots-Cycle f keeps finds ns k n later (keeps r m k first ∙ e)
      ]
    where
      root-cases :
          (r : String) (v : Option (Bool × Marks)) (later : Marks → Option (Option String))
          (n : String)
          → name_failed r v later ≡ some (some n)
          → ((m' : Marks) × (v ≡ some (false, m')))
            ⊎ ((k : Marks) × (v ≡ some (true, k)) × (later k ≡ some (some n)))
      root-cases r none later n h = absurd (cc)
      root-cases r (some (false, m)) later n h = inl (m, refl)
      root-cases r (some (true, m)) later n h = inr (m, refl, h)

  -- When the search names a node, some node reaches itself over forward edges.
  pub find_cycle_complete :
      (fuel : ℕ) (ns : List String) (n : String)
      → find_cycle fuel es ns ≡ some (some n)
      → (v : String) × Reaches es v v
  unfolding find_cycle
  find_cycle_complete fuel ns n h =
      visit_roots-Cycle (visit fuel es) (visit-path fuel es) (visit-Cycle fuel) ns no_marks n h refl
