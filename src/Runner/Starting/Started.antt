-- ===== src/Runner/Starting/Started.antt =====
-- `Start` and the calls of the nodes, of src/core/graph_runner.cpp.
use rk_avp.Prelude.{
  ◌≡◌, refl, true, not, List, [], ◌∷◌, Option, String, string_keys, ℤ, arith, if_lem, ◌∙◌,
}
use rk_avp.Prelude.Maps.{contains, emplace}
use rk_avp.Status.{Status, is_ok, to_status}
use rk_avp.ConfigValue.{ConfigValue, Object}
use rk_avp.Graph.{GraphConfig, ExecutorConfig}
use rk_avp.Graph.Validation.{Registry, validate}
use rk_avp.Scheduler.{make_scheduler}
use rk_avp.Scheduler
use rk_avp.Runner.State.{GraphRunner, set_error, close_queues}
use rk_avp.Runner.Lifetime.{Lifetime, NodeClasses, Changed, starts, put_runner}
use rk_avp.Runner.Starting.{
  start_executors, start_control, called, create_nodes, start_failed, start_nodes, build_tables,
  run_now, reset_error, run_nodes, from_tables, from_nodes, from_control, and_then,
  set_side_packets, set_missing, begin_start, end_start, start,
}
use rk_avp.Runner.Starting.Kept.{IsKept, enqueue_initial-IsKept}
use rk_avp.Runner.Starting.Balance.{
  tally, configured, closed, Balanced, and_then_lem, add_calls, create_nodes-Balanced, more_nodes,
}
use rk_avp.Runner.Starting.Stopped.{IsTidy, stop_with-IsTidy}

started :
    (id j : String) → tally (configured j) (starts id ∷ []) ≡ tally (closed j) (starts id ∷ [])
unfolding tally
started id j = refl

module _ {D : Type 0} where
  start_executors-Balanced :
      (cs : List ExecutorConfig) (l : Lifetime D) → Balanced l → Balanced (start_executors cs l).0
  unfolding start_executors
  start_executors-Balanced [] l h = h
  start_executors-Balanced (c ∷ cs) l h =
      let (s, status) = Scheduler.start (make_scheduler c.threads c.queue_capacity c.name) in
      let executors = (emplace c.name s l.runner.executors).0 in
      if_lem (λ (x : Lifetime D × Status). Balanced x.0) (is_ok status)
        (λ x.
          start_executors-Balanced cs (put_runner (record l.runner { executors = executors }) l) h)
        (λ x. h)

  -- Starting a node adds and removes no node, and does not stop the runner.
  unfoldable pub IsLawful : NodeClasses D → Type 0
  IsLawful classes =
      (id : String) (r : GraphRunner D)
      → ((j : String)
          → contains j r.nodes ≡ true
          → contains j (classes.on_start id r).0.nodes ≡ true)
        × ((classes.on_start id r).0.running ≡ r.running)

  start_failed_lem :
      (id : String) (status : Status) (r : GraphRunner D) → IsKept r (start_failed id status r)
  unfolding set_error close_queues
  start_failed_lem id status r =
      if_lem (IsKept r) (is_ok status) (λ x. (refl, refl))
        (λ x. if_lem (IsKept r) (not (is_ok r.last_error)) (λ y. (refl, refl)) (λ y. (refl, refl)))

  start_nodes-Balanced :
      (classes : NodeClasses D) (ids : List String) (l : Lifetime D)
      → IsLawful classes
      → Balanced l
      → l.runner.running ≡ true
      → Balanced (start_nodes classes ids l).0
        × ((start_nodes classes ids l).0.runner.running ≡ true)
  unfolding start_nodes IsLawful
  start_nodes-Balanced classes [] l law h up = (h, up)
  start_nodes-Balanced classes (id ∷ ids) l law h up =
      and_then_lem (λ k. Balanced k × (k.runner.running ≡ true)) (l', status)
        (start_nodes classes ids) (balanced, running)
        (λ k b. start_nodes-Balanced classes ids k law b.0 b.1)
    where
      status : Status
      status = (classes.on_start id l.runner).1

      r : GraphRunner D
      r = (classes.on_start id l.runner).0

      l' : Lifetime D
      l' = called (starts id) (put_runner (start_failed id status r) l)

      kept : IsKept r l'.runner
      kept = start_failed_lem id status r

      balanced : Balanced l'
      balanced =
          more_nodes l'.calls l'.lifecycle_order l.runner.nodes l'.runner.nodes
            (λ j c. rw kept.0 ((law id l.runner).0 j c))
            (add_calls l.calls (starts id ∷ []) l.lifecycle_order l.runner.nodes (started id) h)

      running : l'.runner.running ≡ true
      running = kept.1 ∙ (law id l.runner).1 ∙ up

  set_side_packets-Balanced :
      (payload : ConfigValue → D) (more : Object) (l : Lifetime D)
      → Balanced l
      → Balanced (set_side_packets payload more l).0
  unfolding set_side_packets
  set_side_packets-Balanced payload [] l h = h
  set_side_packets-Balanced payload ((name, value) ∷ more) l h =
      let (packets, status) = set_missing payload name value l.side_packets in
      if_lem (λ (x : Lifetime D × Status). Balanced x.0) (is_ok status)
        (λ x. set_side_packets-Balanced payload more (record l { side_packets = packets }) h)
        (λ x. h)

  -- A status that is not an error, and a runner that does not run.
  abbrev Runs : Lifetime D × Status → Type 0
  Runs x = Balanced x.0 × (is_ok x.1 ≡ true → x.0.runner.running ≡ true)

  and_then-Runs :
      (x : Lifetime D × Status) (f : Lifetime D → Lifetime D × Status)
      → Balanced x.0
      → ((l : Lifetime D) → Balanced l → Runs (f l))
      → Runs (and_then x f)
  and_then-Runs (l, status) f h g =
      if_lem Runs (is_ok status) (λ o. g l h) (λ o. (h, λ e. absurd (ground (arith, o, e))))

  module _ (payload : ConfigValue → D) (classes : NodeClasses D) (law : IsLawful classes) where
    run_nodes-Runs : (l : Lifetime D) → Balanced l → Runs (run_nodes classes l)
    run_nodes-Runs l h =
        let (b, up) = start_nodes-Balanced classes l.lifecycle_order (run_now l) law h refl in
        (b, λ o. up)

    from_tables-Runs :
        (config : GraphConfig) (l : Lifetime D)
        → Balanced l
        → Runs (from_tables payload classes config l)
    unfolding build_tables
    from_tables-Runs config l h =
        and_then-Runs (set_side_packets payload config.side_packets (build_tables config l))
          (run_nodes classes)
          (set_side_packets-Balanced payload config.side_packets (build_tables config l) h)
          run_nodes-Runs

    from_nodes-Runs :
        (config : GraphConfig) (l : Lifetime D)
        → Balanced l
        → Runs (from_nodes payload classes config l)
    from_nodes-Runs config l h =
        and_then-Runs (create_nodes classes config.nodes l) (from_tables payload classes config)
          (create_nodes-Balanced classes config.nodes l h) (from_tables-Runs config)

    begin_start-Runs :
        (config : GraphConfig) (l : Lifetime D)
        → Balanced l
        → Runs (begin_start payload classes config l)
    unfolding begin_start start_control
    begin_start-Runs config l h =
        and_then-Runs (start_executors config.executors (reset_error l))
          (from_control payload classes config)
          (start_executors-Balanced config.executors (reset_error l) h)
          (λ k b.
            and_then-Runs (start_control k) (from_nodes payload classes config) b
              (from_nodes-Runs config))

  end_start-IsTidy :
      (payload : ConfigValue → D) (config : GraphConfig) (x : Lifetime D × Status) (now : ℤ)
      → Runs x
      → IsTidy (end_start payload config x now).lifetime
  end_start-IsTidy payload config (l, status) now (h, up) =
      if_lem (λ (c : Changed D). IsTidy c.lifetime) (is_ok status)
        (λ o.
          let kept =
            enqueue_initial-IsKept payload l.runner l.runner config.edges 0 now (refl, refl) in
          unfold IsTidy in
          (
            more_nodes l.calls l.lifecycle_order l.runner.nodes _ (λ j c. rw kept.0 c) h,
            (λ a b. absurd (ground (arith, a, kept.1, up o))),
          ))
        (λ o. stop_with-IsTidy l status h)

  pub start-IsTidy :
      (payload : ConfigValue → D) (registry : Option Registry) (classes : NodeClasses D)
      (config : GraphConfig) (l : Lifetime D) (now : ℤ)
      → IsLawful classes
      → IsTidy l
      → IsTidy (start payload registry classes config l now).lifetime
  unfolding start
  start-IsTidy payload registry classes config l now law h =
      if_lem Goes l.runner.running (λ x. h)
        (λ x.
          if_lem Goes l.runner.stopping (λ y. h)
            (λ y.
              if_lem Goes (not (is_ok (to_status (validate registry config)))) (λ z. h)
                (λ z.
                  end_start-IsTidy payload config (begin_start payload classes config l) now
                    (begin_start-Runs payload classes law config l (unfold IsTidy in h.0)))))
    where
      Goes : Changed D → Type 0
      Goes c = IsTidy c.lifetime
