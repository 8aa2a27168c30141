-- ===== src/Queue/Policies.antt =====
-- What `Push` keeps when a queue overflows: the newest items, or the oldest.
use mathlib.Core.List.{append-nil}
use rk_avp.Prelude.{
  ℕ, zero, suc, ◌-◌, ◌≤◌, ◌<◌, ◌≡◌, refl, sym, ap, ◌∙◌, false, List, [], ◌∷◌, ◌++◌, none, some,
  length, length-append, leb, if◌then◌else◌, take, drop, arith, inl, inr, Bool-cases, leb→le,
  append-snoc,
}
use rk_avp.Prelude.Windows.{shift_in, shift_in-drop}
use rk_avp.Queue.{drop_oldest, drop_newest, BoundedQueue, push}

module _ {ℓ} {A : Type ℓ} where
  -- The queue after `Push`; a call that waits leaves it as it is.
  abbrev queue_after : BoundedQueue A → A → BoundedQueue A
  queue_after q v = elim (push q v) [ none ↦ q | some r ↦ r.0 ]

  pub push_all : BoundedQueue A → List A → BoundedQueue A
  push_all q [] = q
  push_all q (v ∷ vs) = push_all (queue_after q v) vs

  take-length_le : (n : ℕ) (xs : List A) → length xs ≤ n → take n xs ≡ xs
  take-length_le zero [] h = refl
  take-length_le zero (x ∷ xs) h = elim h [ ]
  take-length_le (suc n) [] h = refl
  take-length_le (suc n) (x ∷ xs) h = ap (λ l. x ∷ l) (take-length_le n xs (omega arith))

  take-append_full : (n : ℕ) (xs ys : List A) → length xs ≡ n → take n (xs ++ ys) ≡ xs
  take-append_full zero [] [] h = refl
  take-append_full zero [] (y ∷ ys) h = refl
  take-append_full zero (x ∷ xs) ys h = absurd (omega arith)
  take-append_full (suc n) [] ys h = absurd (omega arith)
  take-append_full (suc n) (x ∷ xs) ys h = ap (λ l. x ∷ l) (take-append_full n xs ys (omega arith))

  abbrev IsOpen : BoundedQueue A → Type 0
  IsOpen q = (q.closed ≡ false) × (0 < q.capacity) × (length q.queue ≤ q.capacity)

  -- The contents alone, under each policy.
  fill_up : ℕ → List A → List A → List A
  fill_up limit xs [] = xs
  fill_up limit xs (v ∷ vs) = fill_up limit (if leb limit (length xs) then xs else xs ++ v ∷ []) vs

  push_all-shift_in :
      (q : BoundedQueue A) (vs : List A)
      → q.policy ≡ drop_oldest
      → (q.closed ≡ false) × (0 < q.capacity)
      → (push_all q vs).queue ≡ shift_in q.capacity q.queue vs
  unfolding push_all shift_in push
  push_all-shift_in q [] p h = refl
  push_all-shift_in q (v ∷ vs) p h = ground (arith, push_all-shift_in (queue_after q v) vs)

  push_all-fill_up :
      (q : BoundedQueue A) (vs : List A)
      → q.policy ≡ drop_newest
      → (q.closed ≡ false) × (0 < q.capacity)
      → (push_all q vs).queue ≡ fill_up q.capacity q.queue vs
  unfolding push_all fill_up push
  push_all-fill_up q [] p h = refl
  push_all-fill_up q (v ∷ vs) p h = ground (arith, push_all-fill_up (queue_after q v) vs)

  fill_up-take :
      (limit : ℕ) (xs vs : List A) → length xs ≤ limit → fill_up limit xs vs ≡ take limit (xs ++ vs)
  unfolding fill_up
  fill_up-take limit xs [] h = rw append-nil (sym (take-length_le limit xs h))
  fill_up-take limit xs (v ∷ vs) h = elim (Bool-cases (leb limit (length xs))) [
    | inl full ↦
        let e : length xs ≡ limit = omega (arith, leb→le _ _ full) in
        rw (full, fill_up)
          (fill_up-take limit xs vs h
            ∙ take-append_full limit xs vs e
            ∙ sym (take-append_full limit xs (v ∷ vs) e))
    | inr room ↦
        rw (room, fill_up)
          (rw append-snoc at
            (fill_up-take limit (xs ++ v ∷ []) vs (ground (arith, length-append xs (v ∷ [])))))
  ]

  -- Any number of pushes under `drop_oldest` leaves the newest items, as many as fit.
  pub push_all-drop_oldest :
      (q : BoundedQueue A) (vs : List A)
      → q.policy ≡ drop_oldest
      → IsOpen q
      → (push_all q vs).queue ≡ drop (length (q.queue ++ vs) - q.capacity) (q.queue ++ vs)
  push_all-drop_oldest q vs p (o, c, h) =
      push_all-shift_in q vs p (o, c) ∙ shift_in-drop q.capacity q.queue vs c h

  -- Under `drop_newest` they leave the oldest, as many as fit.
  push_all-drop_newest :
      (q : BoundedQueue A) (vs : List A)
      → q.policy ≡ drop_newest
      → IsOpen q
      → (push_all q vs).queue ≡ take q.capacity (q.queue ++ vs)
  push_all-drop_newest q vs p (o, c, h) =
      push_all-fill_up q vs p (o, c) ∙ fill_up-take q.capacity q.queue vs h
