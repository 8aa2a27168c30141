-- ===== src/Runner/Starting/Stopped.antt =====
-- `Stop` and the calls of the nodes, of src/core/graph_runner.cpp.
use rk_avp.Prelude.{
  ◌≡◌, refl, Bool, true, false, not, List, [], ◌∷◌, ◌++◌, String, ◌==◌, if◌then◌else◌, string_keys,
  arith, if_lem, is_empty, All,
}
use rk_avp.Prelude.Maps.{find, contains}
use rk_avp.Prelude.Counts.{occurrences}
use rk_avp.Status.{Status}
use rk_avp.Runner.State.{close_queues}
use rk_avp.Runner.Lifetime.{
  Lifetime, Changed, Call, asks_to_stop, stops, closes, call_each, unwind, is_up, begin_stop,
  end_stop, finish_stop, stop_with, answer_stop,
}
use rk_avp.Runner.Starting.Balance.{
  tally, tally-append, configured, closed, Nodes, IsBalanced, Balanced, add_calls,
}

empty_list {ℓ} : {A : Type ℓ} (xs : List A) → is_empty xs ≡ true → xs ≡ []
empty_list [] h = refl
empty_list (x ∷ xs) h = absurd (ground (arith, h))

module _ {D : Type 0} where
  -- Nothing is left of a runner that neither runs nor stops.
  abbrev pub IsDown : Lifetime D → Type 0
  IsDown l =
      l.runner.running ≡ false
      → l.runner.stopping ≡ false
      → (l.lifecycle_order ≡ []) × (l.runner.nodes ≡ []) × (l.runner.executors ≡ [])

  unfoldable pub IsTidy : Lifetime D → Type 0
  IsTidy l = Balanced l × IsDown l

  tally-call_each :
      (p : Call → Bool) (call : String → Call) (nodes : Nodes D)
      → ((id : String) → p (call id) ≡ false)
      → tally p (call_each call nodes) ≡ 0
  unfolding tally
  tally-call_each p call [] h = refl
  tally-call_each p call ((id, node) ∷ nodes) h =
      ground (arith, h id, tally-call_each p call nodes h)

  tally-unwind :
      (p : Call → Bool) (call : String → Call) (nodes : Nodes D) (order : List String)
      → ((id : String) → p (call id) ≡ false)
      → tally p (unwind call nodes order) ≡ 0
  unfolding tally unwind
  tally-unwind p call nodes [] h = refl
  tally-unwind p call nodes (id ∷ ids) h = ground (
    arith,
    h id,
    tally-unwind p call nodes ids h,
    tally-append p (unwind call nodes ids) (if contains id nodes then call id ∷ [] else []),
  )

  tally-unwind_closes :
      (id : String) (nodes : Nodes D) (order : List String)
      → All (λ j. contains j nodes ≡ true) order
      → tally (closed id) (unwind closes nodes order) ≡ occurrences id order
  unfolding tally unwind occurrences
  tally-unwind_closes id nodes [] h = refl
  tally-unwind_closes id nodes (j ∷ js) h = ground (
    arith,
    h.0,
    tally-unwind_closes id nodes js h.1,
    tally-append (closed id) (unwind closes nodes js)
        (if contains j nodes then closes j ∷ [] else []),
  )

  begin_stop-Balanced : (l : Lifetime D) → Balanced l → Balanced (begin_stop l)
  unfolding begin_stop close_queues
  begin_stop-Balanced l h =
      add_calls l.calls (call_each asks_to_stop l.runner.nodes) l.lifecycle_order l.runner.nodes
        (λ id. ground (
          arith,
          tally-call_each (configured id) asks_to_stop l.runner.nodes (λ j. refl),
          tally-call_each (closed id) asks_to_stop l.runner.nodes (λ j. refl),
        ))
        h

  pub end_stop-IsTidy : (l : Lifetime D) → Balanced l → IsTidy (end_stop l)
  unfolding end_stop IsTidy IsBalanced occurrences
  end_stop-IsTidy l (h, held) =
      let stopped = unwind stops l.runner.nodes l.lifecycle_order in
      let closing = unwind closes l.runner.nodes l.lifecycle_order in
      (
        (
          (λ id. ground (
            arith,
            h id,
            tally-append (configured id) (l.calls ++ stopped) closing,
            tally-append (closed id) (l.calls ++ stopped) closing,
            tally-append (configured id) l.calls stopped,
            tally-append (closed id) l.calls stopped,
            tally-unwind (configured id) stops l.runner.nodes l.lifecycle_order (λ j. refl),
            tally-unwind (closed id) stops l.runner.nodes l.lifecycle_order (λ j. refl),
            tally-unwind (configured id) closes l.runner.nodes l.lifecycle_order (λ j. refl),
            tally-unwind_closes id l.runner.nodes l.lifecycle_order held,
          )),
          tt,
        ),
        (λ a b. (refl, refl, refl)),
      )

  -- With no node the order is empty.
  no_order :
      (order : List String) (nodes : Nodes D)
      → is_empty nodes ≡ true
      → All (λ j. contains j nodes ≡ true) order
      → order ≡ []
  unfolding contains find
  no_order [] nodes e h = refl
  no_order (j ∷ js) [] e h = absurd (ground (arith, h.0))
  no_order (j ∷ js) (x ∷ nodes) e h = absurd (ground (arith, e))

  not_up-IsDown : (l : Lifetime D) → Balanced l → not (is_up l.runner) ≡ true → IsDown l
  unfolding IsBalanced
  not_up-IsDown l (h, held) up a b = (
    no_order l.lifecycle_order l.runner.nodes (ground (arith, up)) held,
    empty_list l.runner.nodes (ground (arith, up)),
    empty_list l.runner.executors (ground (arith, up)),
  )

  pub finish_stop-IsTidy :
      (l : Lifetime D) (status : Status)
      → IsTidy l
      → IsTidy (answer_stop l (finish_stop l) status).lifetime
  unfolding finish_stop
  finish_stop-IsTidy l status h =
      if_lem (λ o. IsTidy (answer_stop l o status).lifetime) (l.runner.active_operations == 0)
        (λ x. end_stop-IsTidy l (unfold IsTidy in h.0)) (λ x. h)

  begin_stop-IsTidy : (l : Lifetime D) → Balanced l → IsTidy (begin_stop l)
  unfolding IsTidy begin_stop close_queues
  begin_stop-IsTidy l h = (begin_stop-Balanced l h, (λ a b. absurd (cc)))

  -- What is balanced is tidy when it neither runs nor stops, or is up.
  pub stop_with-IsTidy :
      (l : Lifetime D) (status : Status) → Balanced l → IsTidy (stop_with l status).lifetime
  unfolding stop_with
  stop_with-IsTidy l status h =
      if_lem Goes l.runner.stopping
        (λ x. unfold IsTidy in (h, λ a b. absurd (ground (arith, x, b))))
        (λ x.
          if_lem Goes (not (is_up l.runner)) (λ y. unfold IsTidy in (h, not_up-IsDown l h y))
            (λ y. finish_stop-IsTidy (begin_stop l) status (begin_stop-IsTidy l h)))
    where
      Goes : Changed D → Type 0
      Goes c = IsTidy c.lifetime
