-- ===== src/Graph/Acyclic/Fuel.antt =====
-- The fuel of the search of `ValidateAcyclic`.
use rk_avp.Prelude.{
  ℕ, zero, suc, ◌<◌, ◌≡◌, refl, Bool, true, false, List, [], ◌∷◌, Option, none, some, String, All,
  length, arith, inl, inr, Bool-cases, ◌⊎◌, ◌≢◌, eq_iff, ◌∙◌, string_keys,
}
use rk_avp.Prelude.Names.{member, missing, missing-cons, missing-nil}
use rk_avp.Graph.{EdgeConfig}
use rk_avp.Graph.Acyclic.{
  Marks, adjacent, go_on, name_failed, visit_each, leave, visit, visit_roots, no_marks, find_cycle,
  Reaches,
}
use rk_avp.Graph.Acyclic.Complete.{KeepsPath, visit-path, find_cycle_complete}
use rk_avp.Graph.Acyclic.Sound.{find_cycle_sound}

abbrev Ends {ℓ} : {A : Type ℓ} → Option A → Type ℓ
Ends {A = A} r = (a : A) × (r ≡ some a)

go_on-Ends :
    (r : Option (Bool × Marks)) (later : Marks → Option (Bool × Marks))
    → Ends r
    → ((k : Marks) → r ≡ some (true, k) → Ends (later k))
    → Ends (go_on r later)
go_on-Ends none later h l = absurd (let (a, e) = h in cc)
go_on-Ends (some (false, m)) later h l = ((false, m), refl)
go_on-Ends (some (true, m)) later h l = l m refl

name_failed-Ends :
    (n : String) (r : Option (Bool × Marks)) (later : Marks → Option (Option String))
    → Ends r
    → ((k : Marks) → r ≡ some (true, k) → Ends (later k))
    → Ends (name_failed n r later)
name_failed-Ends n none later h l = absurd (let (a, e) = h in cc)
name_failed-Ends n (some (false, m)) later h l = (some n, refl)
name_failed-Ends n (some (true, m)) later h l = l m refl

leave-Ends : (n : String) (r : Option (Bool × Marks)) → Ends r → Ends (leave n r)
unfolding leave
leave-Ends n none h = absurd (let (a, e) = h in cc)
leave-Ends n (some (false, m)) h = ((false, m), refl)
leave-Ends n (some (true, m)) h = ((true, _), refl)

module _ (es : List EdgeConfig) (ns : List String) where
  -- Every target is a node, as `Validate` has checked before the search.
  abbrev pub Closed : Type 0
  Closed = (n : String) → All (λ t. member t ns ≡ true) (adjacent es n)

  visit_each-Ends :
      (f : String → Marks → Option (Bool × Marks)) (vs : List String)
      → KeepsPath f
      → ((t : String) (m : Marks) → member t ns ≡ true → m.visiting ≡ vs → Ends (f t m))
      → (ts : List String) (m : Marks) → All (λ t. member t ns ≡ true) ts
      → m.visiting ≡ vs
      → Ends (visit_each f ts m)
  unfolding visit_each
  visit_each-Ends f vs keeps ends [] m i e = ((true, m), refl)
  visit_each-Ends f vs keeps ends (t ∷ ts) m i e =
      go_on-Ends (f t m) (visit_each f ts) (ends t m i.0 e)
        (λ k first. visit_each-Ends f vs keeps ends ts k i.1 (keeps t m k first ∙ e))

  visit-Ends :
      Closed
      → (fuel : ℕ) (n : String) (m : Marks) → member n ns ≡ true
      → missing m.visiting ns < fuel
      → Ends (visit fuel es n m)
  unfolding visit
  visit-Ends c zero n m i h = absurd (omega arith)
  visit-Ends c (suc fuel) n m i h = elim (Bool-cases (member n m.visiting)) [
    | inl on_path ↦ ((false, m), rw on_path)
    | inr off_path ↦ elim (Bool-cases (member n m.visited)) [
      | inl old ↦ ((true, m), rw (off_path, old))
      | inr new ↦
          rw (off_path, new)
            (leave-Ends n _ (
              visit_each-Ends (visit fuel es) (n ∷ m.visiting) (visit-path fuel es)
                (λ t k j e.
                  visit-Ends c fuel t k j
                    (rw e (omega (arith, missing-cons n m.visiting ns i off_path))))
                (adjacent es n) _ (c n) refl))
    ]
  ]

  visit_roots-Ends :
      Closed
      → (fuel : ℕ) → length ns < fuel
      → (rs : List String) (m : Marks) → All (λ r. member r ns ≡ true) rs
      → m.visiting ≡ []
      → Ends (visit_roots (visit fuel es) rs m)
  unfolding visit_roots
  visit_roots-Ends c fuel h [] m i e = (none, refl)
  visit_roots-Ends c fuel h (r ∷ rs) m i e =
      name_failed-Ends r (visit fuel es r m) (visit_roots (visit fuel es) rs)
        (visit-Ends c fuel r m i.0 (rw e (omega (arith, missing-nil ns))))
        (λ k first. visit_roots-Ends c fuel h rs k i.1 (visit-path fuel es r m k first ∙ e))

All-members :
    (xs ys : List String)
    → ((x : String) → member x xs ≡ true → member x ys ≡ true)
    → All (λ t. member t ys ≡ true) xs
unfolding member
All-members [] ys h = tt
All-members (x ∷ xs) ys h =
    (h x (ground (arith, eq_iff x x)), All-members xs ys (λ y i. h y (ground arith)))

-- When every target of a forward edge is a node, the search decides: with fuel for one more than
-- the nodes it ends, and either no node reaches itself over forward edges, or some node does.
pub find_cycle_decides :
    (es : List EdgeConfig) (ns : List String)
    → Closed es ns
    → (r : Option String) × (find_cycle (suc (length ns)) es ns ≡ some r)
      × (((r ≡ none) × ((n : String) → member n ns ≡ true → ¬ Reaches es n n))
          ⊎ ((r ≢ none) × ((v : String) × Reaches es v v)))
find_cycle_decides es ns c = let (r, e) = ends in (r, e, decide r e)
  where
    ends : Ends (find_cycle (suc (length ns)) es ns)
    ends =
        unfold find_cycle in
        visit_roots-Ends es ns c (suc (length ns)) (omega arith) ns no_marks
          (All-members ns ns (λ x i. i)) refl

    decide :
        (r : Option String)
        → find_cycle (suc (length ns)) es ns ≡ some r
        → ((r ≡ none) × ((n : String) → member n ns ≡ true → ¬ Reaches es n n))
          ⊎ ((r ≢ none) × ((v : String) × Reaches es v v))
    decide none e = inl (refl, λ n i. find_cycle_sound es (suc (length ns)) ns n e i)
    decide (some n) e = inr ((λ x. cc), find_cycle_complete es (suc (length ns)) ns n e)
