-- ===== src/Queue/Order.antt =====
-- What any sequence of calls on one bounded queue does to its contents.
use mathlib.Core.List.{append-nil, append_assoc}
use rk_avp.Prelude.{
  ◌≤◌, ◌≡◌, refl, sym, ap, ◌∙◌, true, ◌&&◌, List, [], ◌∷◌, ◌++◌, Option, none, some, length,
  length-append, if◌then◌else◌, take, arith,
}
use rk_avp.Queue.{BoundedQueue, Pushed, push, push_control, try_pop, wait_pop, close}

pub data Call {ℓ} (A : Type ℓ) : Type ℓ where
  pushes pushes_control : A → Call A
  pops waits_for closes : Call A

-- The queue after some calls; the items that left it, evicted or popped, first to last; and the
-- items whose `Push` or `PushControl` returned true.
pub record Log {ℓ} (A : Type ℓ) : Type ℓ where
  pub after : BoundedQueue A
  pub removed : List A
  pub accepted : List A

module _ {ℓ} {A : Type ℓ} where
  -- A push that returned true and reported a drop evicted the front.
  abbrev after_push : BoundedQueue A → A → Pushed A → Log A
  after_push q v (q', pushed, dropped) = record {
    after = q';
    removed = if pushed && dropped then take 1 q.queue else [];
    accepted = if pushed then v ∷ [] else [];
  }

  abbrev waiting : BoundedQueue A → Log A
  waiting q = record { after = q; removed = []; accepted = [] }

  abbrev to_list : Option A → List A
  to_list none = []
  to_list (some v) = v ∷ []

  unfoldable pub call : BoundedQueue A → Call A → Log A
  call q (pushes v) = elim (push q v) [ none ↦ waiting q | some r ↦ after_push q v r ]
  call q (pushes_control v) = after_push q v (push_control q v)
  call q pops = record { after = (try_pop q).0; removed = to_list (try_pop q).1; accepted = [] }
  call q waits_for = elim (wait_pop q) [
    | none ↦ waiting q
    | some r ↦ record { after = r.0; removed = to_list r.1; accepted = [] }
  ]
  call q closes = record { after = close q; removed = []; accepted = [] }

  unfoldable pub run : BoundedQueue A → List (Call A) → Log A
  run q [] = waiting q
  run q (c ∷ cs) =
      let first = call q c in
      let later = run first.after cs in
      record {
        after = later.after;
        removed = first.removed ++ later.removed;
        accepted = first.accepted ++ later.accepted;
      }

  -- One call keeps the order: what left, then what is there, is what was there, then what came.
  abbrev InOrder : BoundedQueue A → Log A → Type ℓ
  InOrder q l = l.removed ++ l.after.queue ≡ q.queue ++ l.accepted

  push-InOrder : (q : BoundedQueue A) (v : A) → InOrder q (call q (pushes v))
  unfolding call push
  push-InOrder q v = split q.queue refl
    where
      split : (xs : List A) → q.queue ≡ xs → InOrder q (call q (pushes v))
      split [] e = ground (arith, append-nil q.queue)
      split (x ∷ xs) e = ground (arith, append-nil q.queue)

  control-InOrder : (q : BoundedQueue A) (v : A) → InOrder q (call q (pushes_control v))
  unfolding call push_control
  control-InOrder q v = split q.queue refl
    where
      split : (xs : List A) → q.queue ≡ xs → InOrder q (call q (pushes_control v))
      split [] e = ground (arith, append-nil q.queue)
      split (x ∷ xs) e = ground (arith, append-nil q.queue)

  pop-InOrder : (q : BoundedQueue A) → InOrder q (call q pops)
  unfolding call try_pop
  pop-InOrder q = ground (arith, append-nil q.queue)

  wait-InOrder : (q : BoundedQueue A) → InOrder q (call q waits_for)
  unfolding call wait_pop
  wait-InOrder q = ground (arith, append-nil q.queue)

  call-InOrder : (q : BoundedQueue A) (c : Call A) → InOrder q (call q c)
  unfolding call close
  call-InOrder q (pushes v) = push-InOrder q v
  call-InOrder q (pushes_control v) = control-InOrder q v
  call-InOrder q pops = pop-InOrder q
  call-InOrder q waits_for = wait-InOrder q
  call-InOrder q closes = sym (append-nil q.queue)

  -- Over any calls nothing is reordered, lost or made up.
  pub run-InOrder : (q : BoundedQueue A) (cs : List (Call A)) → InOrder q (run q cs)
  unfolding run
  run-InOrder q [] = sym (append-nil q.queue)
  run-InOrder q (c ∷ cs) =
      let first = call q c in
      let later = run first.after cs in
      simp (append_assoc, run-InOrder first.after cs)
        (simp (← append_assoc) (ap (λ l. l ++ later.accepted) (call-InOrder q c)))

  abbrev Within : BoundedQueue A → Type 0
  Within q = length q.queue ≤ q.capacity

  call-Within :
      (q : BoundedQueue A) (c : Call A)
      → Within q
      → Within (call q c).after × ((call q c).after.capacity ≡ q.capacity)
  unfolding call push push_control try_pop wait_pop close
  call-Within q c h = grind (arith, length-append)

  -- Over any calls the queue stays within its capacity, which no call changes.
  pub run-Within :
      (q : BoundedQueue A) (cs : List (Call A))
      → Within q
      → Within (run q cs).after × ((run q cs).after.capacity ≡ q.capacity)
  unfolding run
  run-Within q [] h = (h, refl)
  run-Within q (c ∷ cs) h =
      let (h', e) = call-Within q c h in
      let (h'', e') = run-Within (call q c).after cs h' in (h'', e' ∙ e)

  call_closed :
      (q : BoundedQueue A) (c : Call A)
      → q.closed ≡ true
      → ((call q c).accepted ≡ []) × ((call q c).after.closed ≡ true)
  unfolding call push push_control try_pop wait_pop close
  call_closed q c h = ground arith

  closed-accepted :
      (q : BoundedQueue A) (cs : List (Call A)) → q.closed ≡ true → (run q cs).accepted ≡ []
  unfolding run
  closed-accepted q [] h = refl
  closed-accepted q (c ∷ cs) h =
      let (none_added, still) = call_closed q c h in
      rw (none_added, closed-accepted (call q c).after cs still)

  -- Once a queue is closed no later call adds to it: what still leaves it, first to last, is a
  -- front part of what it held, and the rest stays.
  run_closed :
      (q : BoundedQueue A) (cs : List (Call A))
      → q.closed ≡ true
      → ((run q cs).accepted ≡ []) × ((run q cs).removed ++ (run q cs).after.queue ≡ q.queue)
  run_closed q cs h =
      let none_added = closed-accepted q cs h in
      (none_added, run-InOrder q cs ∙ rw none_added (append-nil q.queue))
