-- ===== src/Builtins/AdaptiveBatch/Fairness.antt =====
-- The order in which a flush of the adaptive batch takes the waiting items.
use rk_avp.Prelude.{
  ℕ, zero, suc, ◌+◌, ◌≤◌, ◌<◌, ◌≡◌, refl, sym, ap, subst, ◌∙◌, true, false, inl, inr, List, [], ◌∷◌,
  ◌++◌, filter, Option, none, some, String, length, length-append, if◌then◌else◌, string_keys,
  arith, eq_iff, Bool-cases, All, if_lem,
}
use rk_avp.Prelude.Names.{member, member-append}
use rk_avp.Packet.{BatchItem}
use rk_avp.Builtins.AdaptiveBatch.{
  from, source_order, take_first, put_back, next_source, round, rounds, then_taken, order_items,
}

module _ {D : Type 0} where
  abbrev pub of_source : String → List (BatchItem D) → List (BatchItem D)
  of_source s items = filter (from s) items

  abbrev Known : List String → BatchItem D → Type 0
  Known names i = member i.source_id names ≡ true

  -- What taking the first item of a source does.
  record Took (s : String) (items : List (BatchItem D)) (i : BatchItem D)
      (left : List (BatchItem D)) : Type 0 where
    own : from s i ≡ true
    same :
        (t : String)
        → of_source t items ≡ (if from t i then i ∷ of_source t left else of_source t left)
    fewer : length items ≡ suc (length left)
    kept : (names : List String) → All (Known names) items → All (Known names) left

  put_back-some :
      (j i : BatchItem D) (o : Option (BatchItem D × List (BatchItem D)))
      (left : List (BatchItem D))
      → put_back j o ≡ some (i, left)
      → (k : List (BatchItem D)) × (o ≡ some (i, k)) × (j ∷ k ≡ left)
  put_back-some j i none left e = absurd (cc)
  put_back-some j i (some (i', k)) left e = (k, ground (arith, e), ground (arith, e))

  take_first-Took :
      (s : String) (items : List (BatchItem D)) (i : BatchItem D) (left : List (BatchItem D))
      → take_first s items ≡ some (i, left)
      → Took s items i left
  unfolding take_first filter
  take_first-Took s [] i left e = absurd (cc)
  take_first-Took s (j ∷ js) i left e = elim (Bool-cases (from s j)) [
    | inl here ↦
        let e' = rw here at e in
        let (same, front) : (js ≡ left) × (j ≡ i) = (ground (arith, e'), ground (arith, e')) in
        subst (λ k. Took s (j ∷ js) i k) same
          (subst (λ k. Took s (j ∷ js) k js) front
            (record { own = here; same = λ t. refl; fewer = refl; kept = λ names h. h.1 }))
    | inr there ↦
        let (k, found, same) = put_back-some j i (take_first s js) left (rw there at e) in
        let took = take_first-Took s js i k found in
        subst (λ l. Took s (j ∷ js) i l) same
          (record {
            own = took.own;
            same = λ t. ground (
              arith,
              took.same t,
              took.own,
              there,
              eq_iff j.source_id s,
              eq_iff i.source_id s,
              eq_iff j.source_id t,
              eq_iff i.source_id t,
            );
            fewer = ap suc took.fewer;
            kept = λ names h. (h.0, took.kept names h.1);
          })
  ]

  take_first_missing :
      (s : String) (items : List (BatchItem D))
      → take_first s items ≡ none
      → All (λ i. from s i ≡ false) items
  unfolding take_first
  take_first_missing s [] e = tt
  take_first_missing s (j ∷ js) e = elim (Bool-cases (from s j)) [
    | inl here ↦ absurd (let e' = rw here at e in cc)
    | inr there ↦ (there, take_first_missing s js (lost (take_first s js) (rw there at e)))
  ]
    where
      lost : (o : Option (BatchItem D × List (BatchItem D))) → put_back j o ≡ none → o ≡ none
      lost none e = refl
      lost (some x) e = absurd (cc)

  -- What one round does: each source's items stay in order, and one leaves if any is known.
  record Went (names : List String) (items : List (BatchItem D))
      (out : List (BatchItem D) × List (BatchItem D)) : Type 0 where
    same : (t : String) → of_source t items ≡ of_source t out.0 ++ of_source t out.1
    whole : length items ≡ length out.0 + length out.1
    kept : (all : List String) → All (Known all) items → All (Known all) out.1

  next_source-Went :
      (s : String) (ss : List String) (items : List (BatchItem D))
      (o : Option (BatchItem D × List (BatchItem D)))
      → take_first s items ≡ o
      → ((left : List (BatchItem D)) → Went ss left (round ss left))
      → Went (s ∷ ss) items (next_source o items (round ss))
  unfolding filter
  next_source-Went s ss items none e h = record {
    same = (h items).same;
    whole = (h items).whole;
    kept = (h items).kept;
  }
  next_source-Went s ss items (some (i, left)) e h =
      let took = take_first-Took s items i left e in
      let went = h left in
      record {
        same = λ t. took.same t ∙ rw (went.same t) (ground arith);
        whole = omega (arith, took.fewer, went.whole);
        kept = λ all k. went.kept all (took.kept all k);
      }

  round-Went : (ss : List String) (items : List (BatchItem D)) → Went ss items (round ss items)
  unfolding round filter
  round-Went [] items = record {
    same = λ t i. of_source t items;
    whole = omega arith;
    kept = λ all k. k;
  }
  round-Went (s ∷ ss) items = next_source-Went s ss items (take_first s items) refl (round-Went ss)

  next_source_takes :
      (s : String) (ss : List String) (j : BatchItem D) (js : List (BatchItem D))
      (o : Option (BatchItem D × List (BatchItem D)))
      → take_first s (j ∷ js) ≡ o
      → member j.source_id (s ∷ ss) ≡ true
      → (member j.source_id ss ≡ true → 0 < length (round ss (j ∷ js)).0)
      → 0 < length (next_source o (j ∷ js) (round ss)).0
  unfolding member
  next_source_takes s ss j js (some (i, left)) e k h = omega arith
  next_source_takes s ss j js none e k h =
      let (other, _) = take_first_missing s (j ∷ js) e in
      h (ground (arith, k, other, eq_iff j.source_id s, eq_iff s j.source_id))

  -- A round takes an item when the first item's source is among the sources.
  round_takes :
      (ss : List String) (j : BatchItem D) (js : List (BatchItem D))
      → member j.source_id ss ≡ true
      → 0 < length (round ss (j ∷ js)).0
  unfolding round
  round_takes [] j js k = absurd (unfold member in cc)
  round_takes (s ∷ ss) j js k =
      next_source_takes s ss j js (take_first s (j ∷ js)) refl k (round_takes ss j js)

  -- The rounds end, with each source's items in order.
  Ordered : List (BatchItem D) → Option (List (BatchItem D)) → Type 0
  Ordered items o =
      (out : List (BatchItem D)) × (o ≡ some out)
      × (length out ≡ length items)
      × ((t : String) → of_source t out ≡ of_source t items)

  pub of_source-append :
      (t : String) (xs ys : List (BatchItem D))
      → of_source t (xs ++ ys) ≡ of_source t xs ++ of_source t ys
  unfolding filter
  of_source-append t [] ys = refl
  of_source-append t (x ∷ xs) ys = ground (arith, of_source-append t xs ys)

  then_taken-Ordered :
      (items taken left : List (BatchItem D)) (o : Option (List (BatchItem D)))
      → length items ≡ length taken + length left
      → ((t : String) → of_source t items ≡ of_source t taken ++ of_source t left)
      → Ordered left o
      → Ordered items (then_taken taken o)
  unfolding Ordered
  then_taken-Ordered items taken left o n same (out, e, m, sorted) = rw e (
    taken ++ out,
    refl,
    omega (arith, n, m, length-append taken out),
    λ t. of_source-append t taken out ∙ ap (λ l. of_source t taken ++ l) (sorted t) ∙ sym (same t),
  )

  rounds-Ordered :
      (fuel : ℕ) (ss : List String) (items : List (BatchItem D))
      → length items ≤ fuel
      → All (Known ss) items
      → Ordered items (rounds fuel ss items)
  unfolding rounds Ordered
  rounds-Ordered fuel ss [] n k = ([], refl, refl, λ t i. of_source t [])
  rounds-Ordered zero ss (j ∷ js) n k = absurd (omega arith)
  rounds-Ordered (suc fuel) ss (j ∷ js) n k =
      let went = round-Went ss (j ∷ js) in
      then_taken-Ordered (j ∷ js) (round ss (j ∷ js)).0 (round ss (j ∷ js)).1 _ went.whole went.same
        (rounds-Ordered fuel ss (round ss (j ∷ js)).1
          (omega (arith, n, went.whole, round_takes ss j js k.0)) (went.kept ss k))

  source_order_keeps :
      (x : String) (items : List (BatchItem D)) (names : List String)
      → member x names ≡ true
      → member x (source_order items names) ≡ true
  unfolding source_order
  source_order_keeps x [] names h = h
  source_order_keeps x (i ∷ is) names h = source_order_keeps x is _ (
      if_lem (λ l. member x l ≡ true) (member i.source_id names) (λ e. h)
        (λ e. member-append x names (i.source_id ∷ []) ∙ ground (arith, h)))

  source_order-Known :
      (items : List (BatchItem D)) (names : List String)
      → All (Known (source_order items names)) items
  unfolding source_order member
  source_order-Known [] names = tt
  source_order-Known (i ∷ is) names = (
    source_order_keeps i.source_id is _ (
        if_lem (λ l. member i.source_id l ≡ true) (member i.source_id names) (λ e. e)
          (λ e.
            member-append i.source_id names (i.source_id ∷ [])
            ∙ ground (arith, eq_iff i.source_id i.source_id))),
    source_order-Known is _,
  )

  -- Ordering ends, with every item once and those of each source in their order.
  pub order_items_lem :
      (items : List (BatchItem D))
      → (out : List (BatchItem D)) × (order_items items ≡ some out)
        × (length out ≡ length items)
        × ((t : String) → of_source t out ≡ of_source t items)
  unfolding order_items Ordered
  order_items_lem items =
      rounds-Ordered (length items) (source_order items []) items (omega arith)
        (source_order-Known items [])
