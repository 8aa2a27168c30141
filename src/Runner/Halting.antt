-- ===== src/Runner/Halting.antt =====
-- What an error or a cancellation does to a runner, whatever is called afterwards.
use rk_avp.Prelude.{
  ℕ, zero, suc, ◌≡◌, refl, subst, Bool, true, false, ◌⊎◌, inl, inr, not, List, [], ◌∷◌, map, Option,
  none, some, String, ◌=?◌, string_keys, ℤ, get_elem?, set, All, arith, Bool-cases, if_lem,
}
use rk_avp.Prelude.Maps.{find, assign}
use rk_avp.Status.{Status, is_ok}
use rk_avp.Queue.{close}
use rk_avp.Scheduler.{Scheduler}
use rk_avp.Runner.State.{
  GraphRunner, EdgeRuntime, InputRuntime, set_error, close_queues, close_edge, close_input,
  schedule_edge, schedule_input, put_edge, put_input, Task, post_to, executor_for, scheduled_edge,
  schedule_edge_at, scheduled_input, schedule_input_at,
}

module _ {ℓ κ} {A : Type ℓ} where
  All-get_elem? :
      (P : A → Type κ) (xs : List A) (i : ℕ) (x : A) → All P xs → get_elem? xs i ≡ some x → P x
  All-get_elem? P [] i x h e = absurd (cc)
  All-get_elem? P (y ∷ ys) zero x h e = subst P (ground (arith, e)) h.0
  All-get_elem? P (y ∷ ys) (suc i) x h e = All-get_elem? P ys i x h.1 e

  All-set : (P : A → Type κ) (xs : List A) (i : ℕ) (x : A) → All P xs → P x → All P (set xs i x)
  All-set P [] i x h p = tt
  All-set P (y ∷ ys) zero x h p = (p, h.1)
  All-set P (y ∷ ys) (suc i) x h p = (h.0, All-set P ys i x h.1 p)

module _ {D : Type 0} where
  abbrev pub EdgesClosed : List (EdgeRuntime D) → Type 0
  EdgesClosed es = All (λ (e : EdgeRuntime D). e.queue.closed ≡ true) es

  abbrev pub InputsClosed : List (String × InputRuntime D) → Type 0
  InputsClosed is = All (λ (x : String × InputRuntime D). x.1.queue.closed ≡ true) is

  -- Cancelled, with every queue closed.
  abbrev pub IsHalted : GraphRunner D → Type 0
  IsHalted r = (r.cancelled ≡ true) × EdgesClosed r.edges × InputsClosed r.graph_inputs

  -- An error has halted the runner.
  abbrev pub IsFailStop : GraphRunner D → Type 0
  IsFailStop r = (is_ok r.last_error ≡ true) ⊎ IsHalted r

  -- The same, and a queue outside the runner is closed when the runner has halted.
  abbrev pub Keeps : GraphRunner D → Bool → Type 0
  Keeps r closed = (is_ok r.last_error ≡ true) ⊎ (IsHalted r × (closed ≡ true))

  pub close_edges-EdgesClosed : (es : List (EdgeRuntime D)) → EdgesClosed (map close_edge es)
  unfolding close
  close_edges-EdgesClosed [] = tt
  close_edges-EdgesClosed (e ∷ es) = (refl, close_edges-EdgesClosed es)

  pub close_inputs-InputsClosed :
      (is : List (String × InputRuntime D)) → InputsClosed (map close_input is)
  unfolding close
  close_inputs-InputsClosed [] = tt
  close_inputs-InputsClosed ((name, i) ∷ is) = (refl, close_inputs-InputsClosed is)

  pub set_error-IsFailStop :
      (s : Status) (r : GraphRunner D) → IsFailStop r → IsFailStop (set_error s r)
  unfolding set_error close_queues
  set_error-IsFailStop s r h =
      if_lem IsFailStop (not (is_ok r.last_error)) (λ e. h)
        (λ e. inr (refl, close_edges-EdgesClosed r.edges, close_inputs-InputsClosed r.graph_inputs))

  pub Keeps-IsFailStop : (r : GraphRunner D) (b : Bool) → Keeps r b → IsFailStop r
  Keeps-IsFailStop r b (inl ok) = inl ok
  Keeps-IsFailStop r b (inr (halted, c)) = inr halted

  pub put_edge-Keeps :
      (r : GraphRunner D) (i : ℕ) (e : EdgeRuntime D)
      → Keeps r e.queue.closed
      → Keeps (put_edge i e r) e.queue.closed
  put_edge-Keeps r i e (inl ok) = inl ok
  put_edge-Keeps r i e (inr ((c, es, is), closed)) =
      inr ((c, All-set _ r.edges i e es closed, is), closed)

  pub found-Keeps :
      (r : GraphRunner D) (i : ℕ) (e : EdgeRuntime D)
      → get_elem? r.edges i ≡ some e
      → IsFailStop r
      → Keeps r e.queue.closed
  found-Keeps r i e f (inl ok) = inl ok
  found-Keeps r i e f (inr (c, es, is)) = inr ((c, es, is), All-get_elem? _ r.edges i e es f)

  All-assign :
      (name : String) (i : InputRuntime D) (is : List (String × InputRuntime D))
      → InputsClosed is
      → i.queue.closed ≡ true
      → InputsClosed (assign name i is)
  unfolding assign
  All-assign name i [] h c = (c, tt)
  All-assign name i ((j, k) ∷ is) h c =
      if_lem InputsClosed (j =? name) (λ e. (c, h.1)) (λ e. (h.0, All-assign name i is h.1 c))

  All-find :
      (name : String) (i : InputRuntime D) (is : List (String × InputRuntime D))
      → InputsClosed is
      → find name is ≡ some i
      → i.queue.closed ≡ true
  unfolding find
  All-find name i [] h e = absurd (cc)
  All-find name i ((j, k) ∷ is) h e = elim (Bool-cases (j =? name)) [
    | inl f ↦ ground (arith, rw f at e, h.0)
    | inr f ↦ All-find name i is h.1 (rw f at e)
  ]

  pub put_input-Keeps :
      (r : GraphRunner D) (name : String) (i : InputRuntime D)
      → Keeps r i.queue.closed
      → Keeps (put_input name i r) i.queue.closed
  put_input-Keeps r name i (inl ok) = inl ok
  put_input-Keeps r name i (inr ((c, es, is), closed)) =
      inr ((c, es, All-assign name i r.graph_inputs is closed), closed)

  pub input-Keeps :
      (r : GraphRunner D) (name : String) (i : InputRuntime D)
      → find name r.graph_inputs ≡ some i
      → IsFailStop r
      → Keeps r i.queue.closed
  input-Keeps r name i f (inl ok) = inl ok
  input-Keeps r name i f (inr (c, es, is)) = inr ((c, es, is), All-find name i r.graph_inputs is f)

  post_to-Keeps :
      (r : GraphRunner D) (x : Option (String × Scheduler Task)) (t : Task) (now : ℤ) (m : String)
      (b : Bool)
      → Keeps r b
      → Keeps (post_to r x t now m).0 b
  post_to-Keeps r none t now m b h = h
  post_to-Keeps r (some (name, s)) t now m b h = h

  scheduled_edge-IsFailStop :
      (i : ℕ) (e : EdgeRuntime D) (x : GraphRunner D × Status)
      → Keeps x.0 e.queue.closed
      → IsFailStop (scheduled_edge i e x)
  scheduled_edge-IsFailStop i e (r, status) h =
      if_lem IsFailStop (is_ok status) (λ f. Keeps-IsFailStop r e.queue.closed h)
        (λ f.
          let r' = put_edge i (record e { scheduled = false }) r in
          set_error-IsFailStop status r' (
            Keeps-IsFailStop r' e.queue.closed
              (put_edge-Keeps r i (record e { scheduled = false }) h)))

  schedule_edge_at-IsFailStop :
      (r : GraphRunner D) (i : ℕ) (o : Option (EdgeRuntime D)) (now : ℤ)
      → get_elem? r.edges i ≡ o
      → IsFailStop r
      → IsFailStop (schedule_edge_at r i o now)
  schedule_edge_at-IsFailStop r i none now f h = h
  schedule_edge_at-IsFailStop r i (some e) now f h =
      if_lem IsFailStop e.scheduled (λ s. h)
        (λ s.
          let r' = put_edge i (record e { scheduled = true }) r in
          let x = executor_for r e.config.to_node in
          scheduled_edge-IsFailStop i e
            (post_to r' x (Task.drain_edge i) now "destination executor not found")
            (post_to-Keeps r' x (Task.drain_edge i) now "destination executor not found"
              e.queue.closed
              (put_edge-Keeps r i (record e { scheduled = true }) (found-Keeps r i e f h))))

  pub schedule_edge-IsFailStop :
      (r : GraphRunner D) (i : ℕ) (now : ℤ) → IsFailStop r → IsFailStop (schedule_edge r i now)
  unfolding schedule_edge
  schedule_edge-IsFailStop r i now h =
      schedule_edge_at-IsFailStop r i (get_elem? r.edges i) now refl h

  scheduled_input-IsFailStop :
      (name : String) (i : InputRuntime D) (x : GraphRunner D × Status)
      → Keeps x.0 i.queue.closed
      → IsFailStop (scheduled_input name i x)
  scheduled_input-IsFailStop name i (r, status) h =
      if_lem IsFailStop (is_ok status) (λ f. Keeps-IsFailStop r i.queue.closed h)
        (λ f.
          let r' = put_input name (record i { scheduled = false }) r in
          set_error-IsFailStop status r' (
            Keeps-IsFailStop r' i.queue.closed
              (put_input-Keeps r name (record i { scheduled = false }) h)))

  schedule_input_at-IsFailStop :
      (r : GraphRunner D) (name : String) (o : Option (InputRuntime D)) (now : ℤ)
      → find name r.graph_inputs ≡ o
      → IsFailStop r
      → IsFailStop (schedule_input_at r name o now)
  schedule_input_at-IsFailStop r name none now f h = h
  schedule_input_at-IsFailStop r name (some i) now f h =
      if_lem IsFailStop i.scheduled (λ s. h)
        (λ s.
          let r' = put_input name (record i { scheduled = true }) r in
          let x = executor_for r i.config.node in
          scheduled_input-IsFailStop name i
            (post_to r' x (Task.drain_input name) now "input destination executor not found")
            (post_to-Keeps r' x (Task.drain_input name) now "input destination executor not found"
              i.queue.closed
              (put_input-Keeps r name (record i { scheduled = true }) (input-Keeps r name i f h))))

  pub schedule_input-IsFailStop :
      (r : GraphRunner D) (name : String) (now : ℤ)
      → IsFailStop r
      → IsFailStop (schedule_input r name now)
  unfolding schedule_input
  schedule_input-IsFailStop r name now h =
      schedule_input_at-IsFailStop r name (find name r.graph_inputs) now refl h
