-- ===== src/Trace/Window.antt =====
-- The snapshots of the trace buffer of src/core/trace.cpp.
use mathlib.Core.List.{append-nil, append_assoc}
use native.Mathlib.Nat.{mod-eq_of_lt, mod_self, mod-lt}
use rk_avp.Prelude.{
  ℕ, zero, suc, ◌+◌, ◌-◌, ◌%◌, ◌≤◌, ◌<◌, ◌≡◌, ◌⊎◌, inl, inr, refl, sym, ap, ◌∙◌, Bool, true, false,
  List, [], ◌∷◌, ◌++◌, length, length-append, ltb, set, take, drop, rest, if◌then◌else◌, ◌==◌,
  arith, Bool-cases, if_lem,
}
use rk_avp.Prelude.Windows.{shift, shift_in, shift_in-drop}
use rk_avp.Trace.{TraceEvent, TraceBuffer, make_trace_buffer, add, snapshot}

module _ {ℓ} {A : Type ℓ} where
  length-set : (xs : List A) (i : ℕ) (v : A) → length (set xs i v) ≡ length xs
  length-set [] i v = refl
  length-set (x ∷ xs) zero v = refl
  length-set (x ∷ xs) (suc i) v = ap suc (length-set xs i v)

  take-set :
      (xs : List A) (i : ℕ) (v : A)
      → i < length xs
      → take (suc i) (set xs i v) ≡ take i xs ++ v ∷ []
  take-set [] i v h = absurd (omega arith)
  take-set (x ∷ xs) zero v h = refl
  take-set (x ∷ xs) (suc i) v h = ap (λ l. x ∷ l) (take-set xs i v (omega arith))

  drop-set : (xs : List A) (i : ℕ) (v : A) → drop (suc i) (set xs i v) ≡ drop (suc i) xs
  drop-set [] i v = refl
  drop-set (x ∷ xs) zero v = refl
  drop-set (x ∷ xs) (suc i) v = drop-set xs i v

  rest-drop :
      (xs ys : List A) (i : ℕ) → i < length xs → rest (drop i xs ++ ys) ≡ drop (suc i) xs ++ ys
  rest-drop [] ys i h = absurd (omega arith)
  rest-drop (x ∷ xs) ys zero h = refl
  rest-drop (x ∷ xs) ys (suc i) h = rest-drop xs ys i (omega arith)

  drop_all : (xs : List A) (i : ℕ) → length xs ≤ i → drop i xs ≡ []
  drop_all [] zero h = refl
  drop_all [] (suc i) h = refl
  drop_all (x ∷ xs) zero h = absurd (omega arith)
  drop_all (x ∷ xs) (suc i) h = drop_all xs i (omega arith)

  take_all : (xs : List A) (i : ℕ) → length xs ≤ i → take i xs ≡ xs
  take_all [] zero h = refl
  take_all [] (suc i) h = refl
  take_all (x ∷ xs) zero h = absurd (omega arith)
  take_all (x ∷ xs) (suc i) h = ap (λ l. x ∷ l) (take_all xs i (omega arith))

  -- The rotation of a circle, one step on.
  rotate :
      (xs : List A) (n m : ℕ) (v : A)
      → n < length xs
      → ((m ≡ suc n) ⊎ ((m ≡ 0) × (suc n ≡ length xs)))
      → drop m (set xs n v) ++ take m (set xs n v) ≡ rest (drop n xs ++ take n xs) ++ v ∷ []
  rotate xs n m v h (inl e) =
      rw (e, drop-set xs n v, take-set xs n v h, rest-drop xs (take n xs) n h)
        (sym (append_assoc (drop (suc n) xs) (take n xs) (v ∷ [])))
  rotate xs n m v h (inr (e, full)) =
      rw (e, rest-drop xs (take n xs) n h, drop_all xs (suc n) (omega arith))
        (append-nil (set xs n v)
          ∙ sym (take_all (set xs n v) (suc n) (omega (arith, length-set xs n v)))
          ∙ take-set xs n v h)

-- A full buffer is a circle; one that is not full starts at the front.
pub record IsCircle (b : TraceBuffer) : Type 0 where
  pub bounded : length b.events ≤ b.capacity
  pub inside : b.next < b.capacity
  pub filled : (b.wrapped ≡ true) → length b.events ≡ b.capacity
  pub fresh : (b.wrapped ≡ false) → b.next ≡ 0

next_index : (n c : ℕ) → n < c → ((n + 1) % c ≡ suc n) ⊎ (((n + 1) % c ≡ 0) × (suc n ≡ c))
next_index n c h =
    let e : n + 1 ≡ suc n = omega arith in
    elim (Bool-cases (ltb (suc n) c)) [
      | inl below ↦ inl (rw e (mod-eq_of_lt (ground (arith, below))))
      | inr last ↦
          let full : suc n ≡ c = ground (arith, h, last) in inr (rw (e, full) (mod_self c), full)
    ]

module _ {ℓ} {A : Type ℓ} where
  length-rotated : (xs : List A) (n : ℕ) → length (drop n xs ++ take n xs) ≡ length xs
  length-rotated xs n = length-append (drop n xs) (take n xs) ∙ go xs n
    where
      go : (xs : List A) (n : ℕ) → length (drop n xs) + length (take n xs) ≡ length xs
      go xs zero = omega arith
      go [] (suc n) = omega arith
      go (x ∷ xs) (suc n) = omega (arith, go xs n)

  -- The window of a buffer that is full, or not.
  abbrev window : Bool → ℕ → List A → List A
  window wrapped n xs = if wrapped then drop n xs ++ take n xs else xs

  shift_full : (c : ℕ) (ys : List A) (v : A) → length ys ≡ c → shift c ys v ≡ rest ys ++ v ∷ []
  shift_full c ys v h = ground (arith, h)

  window_full :
      (w : Bool) (n c : ℕ) (xs : List A) (v : A)
      → n < c
      → length xs ≡ c
      → ((w ≡ false) → n ≡ 0)
      → drop ((n + 1) % c) (set xs n v) ++ take ((n + 1) % c) (set xs n v)
        ≡ shift c (window w n xs) v
  window_full w n c xs v h full s =
      rotate xs n ((n + 1) % c) v (omega arith)
        (elim (next_index n c h) [ inl e ↦ inl e | inr (z, e) ↦ inr (z, e ∙ sym full) ])
      ∙ sym (turned w s)
    where
      turned :
          (w : Bool)
          → ((w ≡ false) → n ≡ 0)
          → shift c (window w n xs) v ≡ rest (drop n xs ++ take n xs) ++ v ∷ []
      turned true s = shift_full c (drop n xs ++ take n xs) v (length-rotated xs n ∙ full)
      turned false s =
          shift_full c xs v full ∙ rw (s refl) (ap (λ l. rest l ++ v ∷ []) (sym (append-nil xs)))

snapshot-add :
    (b : TraceBuffer) (e : TraceEvent)
    → IsCircle b
    → snapshot (add b e) ≡ shift b.capacity (snapshot b) e
unfolding snapshot add
snapshot-add b e h =
    if_lem (λ (k : TraceBuffer). snapshot k ≡ shift b.capacity (snapshot b) e)
      (ltb (length b.events) b.capacity) (λ room. appended b.wrapped refl room)
      (λ full.
        window_full b.wrapped b.next b.capacity b.events e h.inside
          (ground (arith, h.bounded, full)) h.fresh)
  where
    appended :
        (w : Bool)
        → b.wrapped ≡ w
        → ltb (length b.events) b.capacity ≡ true
        → window w b.next (b.events ++ e ∷ []) ≡ shift b.capacity (window w b.next b.events) e
    appended true f room = absurd (let x = h.filled f in ground (arith, room, x))
    appended false f room = ground (arith, room)

IsCircle-add : (b : TraceBuffer) (e : TraceEvent) → IsCircle b → IsCircle (add b e)
unfolding add
IsCircle-add b e h =
    if_lem IsCircle (ltb (length b.events) b.capacity)
      (λ room. record {
        bounded = ground (arith, room, length-append b.events (e ∷ []));
        inside = h.inside;
        filled = λ w. absurd (let x = h.filled w in ground (arith, room, x));
        fresh = h.fresh;
      })
      (λ full. record {
        bounded = omega (arith, length-set b.events b.next e, h.bounded);
        inside = mod-lt (b.next + 1) (omega (arith, h.inside));
        filled = λ w. length-set b.events b.next e ∙ ground (arith, h.bounded, full);
        fresh = λ w. absurd (cc);
      })

pub add_all : TraceBuffer → List TraceEvent → TraceBuffer
add_all b [] = b
add_all b (e ∷ es) = add_all (add b e) es

capacity-add : (b : TraceBuffer) (e : TraceEvent) → (add b e).capacity ≡ b.capacity
unfolding add
capacity-add b e = if_lem (λ (k : TraceBuffer). k.capacity ≡ b.capacity) _ (λ x. refl) (λ x. refl)

snapshot-add_all :
    (b : TraceBuffer) (es : List TraceEvent)
    → IsCircle b
    → snapshot (add_all b es) ≡ shift_in b.capacity (snapshot b) es
unfolding add_all shift_in snapshot
snapshot-add_all b [] h = refl
snapshot-add_all b (e ∷ es) h =
    snapshot-add_all (add b e) es (IsCircle-add b e h) ∙ rw (capacity-add b e, snapshot-add b e h)

-- A snapshot holds the newest events, as many as the capacity, which is at least one, oldest first.
snapshot_lem :
    (capacity : ℕ) (es : List TraceEvent)
    → let limit = if capacity == 0 then 1 else capacity in
      snapshot (add_all (make_trace_buffer capacity) es) ≡ drop (length es - limit) es
unfolding make_trace_buffer snapshot
snapshot_lem capacity es =
    let b = make_trace_buffer capacity in
    snapshot-add_all b es (record {
      bounded = ground arith;
      inside = positive;
      filled = λ w. absurd (cc);
      fresh = λ w. refl;
    })
    ∙ shift_in-drop b.capacity [] es positive (ground arith)
  where
    positive : 0 < (if capacity == 0 then 1 else capacity)
    positive = ground arith
