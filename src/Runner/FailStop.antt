-- ===== src/Runner/FailStop.antt =====
-- The fail-stop invariant of a runner, operation by operation.
use rk_avp.Prelude.{
  ℕ, suc, ◌≡◌, refl, subst, ◌∙◌, Bool, true, false, ◌&&◌, ◌||◌, inl, inr, not, Option, none, some,
  String, if◌then◌else◌, string_keys, ℤ, get_elem?, arith, Bool-cases, if_lem,
}
use rk_avp.Prelude.Maps.{find}
use rk_avp.Status.{Status, is_ok, ◌+s◌}
use rk_avp.Timestamp.{Timestamp}
use rk_avp.Packet.{Packet}
use rk_avp.Queue.{BoundedQueue, push, push_control}
use rk_avp.Runner.Stream.{StreamState, arrive, validate_stream_packet}
use rk_avp.Runner.State.{
  GraphRunner, EdgeRuntime, InputRuntime, put_edge, put_input, begin_operation, end_operation,
}
use rk_avp.Runner.Edges.{
  Called, enqueue_edge, offer_edge, offered, enqueue_at, push_packet, is_control, arrival_by,
  edge_stream, count_dropped, is_drop_newest, edge_metric,
}
use rk_avp.Runner.Inputs.{answer_push, add_to, ended, begun, offer_input, add_packet}
use rk_avp.Runner.Halting.{
  IsFailStop, Keeps, Keeps-IsFailStop, put_edge-Keeps, found-Keeps, put_input-Keeps, input-Keeps,
  schedule_edge-IsFailStop, schedule_input-IsFailStop,
}

-- No call opens or closes a queue but `Close`.
module _ {ℓ} {A : Type ℓ} where
  abbrev closed_of : Bool → Option (BoundedQueue A × Bool × Bool) → Bool
  closed_of b none = b
  closed_of b (some (q, pushed, dropped)) = q.closed

  push_closed : (q : BoundedQueue A) (v : A) → closed_of q.closed (push q v) ≡ q.closed
  unfolding push
  push_closed q v = ground arith

  pub push_control_closed : (q : BoundedQueue A) (v : A) → (push_control q v).0.closed ≡ q.closed
  unfolding push_control
  push_control_closed q v = ground arith

module _ {D : Type 0} where
  push_packet_closed :
      (q : BoundedQueue (Packet D)) (p : Packet D) → closed_of q.closed (push_packet q p) ≡ q.closed
  push_packet_closed q p =
      if_lem (λ x. closed_of q.closed x ≡ q.closed) (is_control p.event)
        (λ c. push_control_closed q p) (λ c. push_closed q p)

  count_dropped-Keeps :
      (dropped : Bool) (name : String) (r : GraphRunner D) (b : Bool)
      → Keeps r b
      → Keeps (count_dropped dropped name r) b
  count_dropped-Keeps true name r b h = h
  count_dropped-Keeps false name r b h = h

  pub move_closed : (r : GraphRunner D) (a b : Bool) → a ≡ b → Keeps r b → Keeps r a
  move_closed r a b e (inl ok) = inl ok
  move_closed r a b e (inr (halted, c)) = inr (halted, e ∙ c)

  abbrev pub Stops : Called D → Type 0
  Stops c = IsFailStop c.runner

  offered-IsFailStop :
      (r : GraphRunner D) (i : ℕ) (e : EdgeRuntime D)
      (o : Option (BoundedQueue (Packet D) × Bool × Bool)) (now : ℤ)
      → closed_of e.queue.closed o ≡ e.queue.closed
      → Keeps r e.queue.closed
      → Stops (offered r i e o now)
  offered-IsFailStop r i e none now same h = Keeps-IsFailStop r e.queue.closed h
  offered-IsFailStop r i e (some (q, pushed, dropped)) now same h =
      if_lem Stops pushed (λ p. schedule_edge-IsFailStop counted i now kept)
        (λ p.
          if_lem Stops (dropped && is_drop_newest e.config.queue.policy) (λ x. kept) (λ x. kept))
    where
      e' : EdgeRuntime D
      e' = record e { queue = q; dropped = if dropped then suc e.dropped else e.dropped }

      counted : GraphRunner D
      counted = count_dropped dropped (edge_metric e.config +s ".dropped") (put_edge i e' r)

      kept : IsFailStop counted
      kept = Keeps-IsFailStop counted q.closed (
          count_dropped-Keeps dropped (edge_metric e.config +s ".dropped") (put_edge i e' r)
            q.closed (put_edge-Keeps r i e' (move_closed r q.closed e.queue.closed same h)))

  enqueue_at-IsFailStop :
      (r : GraphRunner D) (i : ℕ) (o : Option (EdgeRuntime D)) (p : Packet D) (now : ℤ)
      → get_elem? r.edges i ≡ o
      → IsFailStop r
      → Stops (enqueue_at r i o p now)
  unfolding offer_edge
  enqueue_at-IsFailStop r i none p now f h = h
  enqueue_at-IsFailStop r i (some e) p now f h =
      if_lem Stops (is_ok arrived.1)
        (λ x.
          offered-IsFailStop (put_edge i e' r) i e' (push_packet e'.queue p) now
            (push_packet_closed e'.queue p) kept)
        (λ x. Keeps-IsFailStop (put_edge i e' r) e.queue.closed kept)
    where
      arrived : StreamState × Status
      arrived = arrive (edge_stream e.config) e.stream (arrival_by p.event p.timestamp)

      e' : EdgeRuntime D
      e' = record e { stream = arrived.0 }

      kept : Keeps (put_edge i e' r) e.queue.closed
      kept = put_edge-Keeps r i e' (found-Keeps r i e f h)

  pub enqueue_edge-IsFailStop :
      (r : GraphRunner D) (i : ℕ) (p : Packet D) (now : ℤ)
      → IsFailStop r
      → Stops (enqueue_edge r i p now)
  unfolding enqueue_edge
  enqueue_edge-IsFailStop r i p now h = enqueue_at-IsFailStop r i (get_elem? r.edges i) p now refl h

  answer_push-IsFailStop :
      (r : GraphRunner D) (name : String) (i : InputRuntime D)
      (o : Option (BoundedQueue (Packet D) × Bool × Bool)) (now : ℤ)
      → closed_of i.queue.closed o ≡ i.queue.closed
      → Keeps r i.queue.closed
      → Stops (answer_push r name i o now)
  answer_push-IsFailStop r name i none now same h = Keeps-IsFailStop r i.queue.closed h
  answer_push-IsFailStop r name i (some (q, pushed, dropped)) now same h =
      if_lem Stops pushed (λ p. schedule_input-IsFailStop counted name now kept)
        (λ p.
          if_lem Stops (dropped && is_drop_newest i.config.queue.policy) (λ x. kept) (λ x. kept))
    where
      i' : InputRuntime D
      i' = record i { queue = q; dropped = if dropped then suc i.dropped else i.dropped }

      counted : GraphRunner D
      counted = count_dropped dropped ("input." +s name +s ".dropped") (put_input name i' r)

      kept : IsFailStop counted
      kept = Keeps-IsFailStop counted q.closed (
          count_dropped-Keeps dropped ("input." +s name +s ".dropped") (put_input name i' r)
            q.closed (put_input-Keeps r name i' (move_closed r q.closed i.queue.closed same h)))

  add_to-IsFailStop :
      (r : GraphRunner D) (name : String) (o : Option (InputRuntime D)) (p : Packet D) (now : ℤ)
      → find name r.graph_inputs ≡ o
      → IsFailStop r
      → Stops (add_to r name o p now)
  unfolding offer_input
  add_to-IsFailStop r name none p now f h = h
  add_to-IsFailStop r name (some i) p now f h =
      if_lem Stops (is_ok checked.1)
        (λ x.
          answer_push-IsFailStop (put_input name i' r) name i' (push i'.queue p) now
            (push_closed i'.queue p) kept)
        (λ x. Keeps-IsFailStop (put_input name i' r) i.queue.closed kept)
    where
      checked : Timestamp × Status
      checked =
          validate_stream_packet p.timestamp i.stream.last_timestamp i.stream.bound i.stream.closed
            name

      i' : InputRuntime D
      i' = record i { stream = record i.stream { last_timestamp = checked.0 } }

      kept : Keeps (put_input name i' r) i.queue.closed
      kept = put_input-Keeps r name i' (input-Keeps r name i f h)

  ended-Stops : (c : Called D) → Stops c → Stops (ended c)
  unfolding end_operation
  ended-Stops c h = go c.answer
    where
      go :
          (o : Option Status)
          → Stops (elim o [ none ↦ c | some s ↦ record c { runner = end_operation c.runner } ])
      go none = h
      go (some s) = h

  pub begun-Stops :
      (o : Option (GraphRunner D)) (r : GraphRunner D) (body : GraphRunner D → Called D)
      → begin_operation r ≡ o
      → IsFailStop r
      → ((k : GraphRunner D) → IsFailStop k → Stops (body k))
      → Stops (begun o r body)
  unfolding begin_operation
  begun-Stops none r body e h f = h
  begun-Stops (some k) r body e h f = ended-Stops (body k) (
      f k (elim (Bool-cases (r.stopping || not r.running)) [
        | inl refused ↦ absurd (let e' = rw refused at e in cc)
        | inr free ↦
            let same : record r { active_operations = suc r.active_operations } ≡ k =
              (let e' = rw free at e in ground (arith, e')) in
            subst IsFailStop same h
      ]))

  pub add_packet-IsFailStop :
      (r : GraphRunner D) (name : String) (p : Packet D) (now : ℤ)
      → IsFailStop r
      → Stops (add_packet r name p now)
  unfolding add_packet
  add_packet-IsFailStop r name p now h = begun-Stops (begin_operation r) r _ refl h (λ k i.
      if_lem Stops k.cancelled (λ c. i)
        (λ c. add_to-IsFailStop k name (find name k.graph_inputs) p now refl i))
