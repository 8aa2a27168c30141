-- ===== src/Runner/Starting/Runs.antt =====
-- Sequences of starts, stops and operations of a runner, of src/core/graph_runner.cpp.
use rk_avp.Prelude.{
  ◌≡◌, refl, false, ◌||◌, not, List, [], ◌∷◌, Option, none, some, String, if◌then◌else◌,
  string_keys, ℤ, arith, if_lem, All,
}
use rk_avp.Prelude.Counts.{occurrences}
use rk_avp.Status.{Status, is_ok, to_status}
use rk_avp.Status
use rk_avp.Packet.{Packet}
use rk_avp.ConfigValue.{ConfigValue}
use rk_avp.Graph.{GraphConfig}
use rk_avp.Graph.Validation.{Registry}
use rk_avp.Runner.State.{GraphRunner, begin_operation, end_operation}
use rk_avp.Runner.Lifetime.{Lifetime, NodeClasses, put_runner, finish_stop, stop_with, answer_stop}
use rk_avp.Runner.Starting.{start}
use rk_avp.Runner.Starting.Balance.{tally, configured, closed, IsBalanced}
use rk_avp.Runner.Starting.Stopped.{IsTidy, stop_with-IsTidy, finish_stop-IsTidy}
use rk_avp.Runner.Starting.Started.{IsLawful, start-IsTidy}

-- `begins_stop` is a call of `Stop`, and `ends_stop` the rest of one that has waited.
pub data Transition (D : Type 0) : Type 0 where
  starts_with : Option Registry → NodeClasses D → GraphConfig → ℤ → Transition D
  begins_stop ends_stop begins_operation ends_operation : Transition D

module _ {D : Type 0} where
  abbrev begun_or : GraphRunner D → Option (GraphRunner D) → GraphRunner D
  begun_or r none = r
  begun_or r (some r') = r'

  abbrev pub MovesLawfully : Transition D → Type 0
  MovesLawfully (starts_with registry classes config now) = IsLawful classes
  MovesLawfully _ = Unit {0}

  unfoldable pub new_lifetime : GraphRunner D → List (String × Packet D) → Lifetime D
  new_lifetime r side_packets = record {
    runner = record r {
      running = false;
      stopping = false;
      active_operations = 0;
      nodes = [];
      executors = [];
      edges = [];
      routes = [];
      graph_inputs = [];
      open_inputs = [];
      open_source_nodes = [];
    };
    control_executor = none;
    lifecycle_order = [];
    graph_outputs = [];
    source_slots = [];
    side_packets = side_packets;
    calls = [];
  }

module _ {D : Type 0} (payload : ConfigValue → D) where
  unfoldable pub change : Lifetime D → Transition D → Lifetime D
  unfolding start stop_with finish_stop begin_operation end_operation
  change l (starts_with registry classes config now) =
      (start payload registry classes config l now).lifetime
  change l begins_stop = (stop_with l Status.ok).lifetime
  change l ends_stop =
      if l.runner.stopping then (answer_stop l (finish_stop l) Status.ok).lifetime else l
  change l begins_operation = put_runner (begun_or l.runner (begin_operation l.runner)) l
  change l ends_operation = put_runner (end_operation l.runner) l

  unfoldable pub run_life : Lifetime D → List (Transition D) → Lifetime D
  run_life l [] = l
  run_life l (t ∷ ts) = run_life (change l t) ts

  begun_or-IsTidy :
      (l : Lifetime D)
      → IsTidy l
      → IsTidy (put_runner (begun_or l.runner (begin_operation l.runner)) l)
  unfolding begin_operation IsTidy
  begun_or-IsTidy l h =
      if_lem (λ o. IsTidy (put_runner (begun_or l.runner o) l))
        (l.runner.stopping || not l.runner.running) (λ x. h) (λ x. h)

  change-IsTidy :
      (l : Lifetime D) (t : Transition D) → MovesLawfully t → IsTidy l → IsTidy (change l t)
  unfolding change end_operation
  change-IsTidy l (starts_with registry classes config now) law h =
      start-IsTidy payload registry classes config l now law h
  change-IsTidy l begins_stop law h = stop_with-IsTidy l Status.ok (unfold IsTidy in h.0)
  change-IsTidy l ends_stop law h =
      if_lem IsTidy l.runner.stopping (λ x. finish_stop-IsTidy l Status.ok h) (λ x. h)
  change-IsTidy l begins_operation law h = begun_or-IsTidy l h
  change-IsTidy l ends_operation law h = unfold IsTidy in h

  run_life-IsTidy :
      (l : Lifetime D) (ts : List (Transition D))
      → All MovesLawfully ts
      → IsTidy l
      → IsTidy (run_life l ts)
  unfolding run_life
  run_life-IsTidy l [] law h = h
  run_life-IsTidy l (t ∷ ts) law h =
      run_life-IsTidy (change l t) ts law.1 (change-IsTidy l t law.0 h)

  new_lifetime-IsTidy :
      (r : GraphRunner D) (side_packets : List (String × Packet D))
      → IsTidy (new_lifetime r side_packets)
  unfolding IsTidy new_lifetime IsBalanced tally occurrences
  new_lifetime-IsTidy r side_packets = (((λ id. refl), tt), (λ a b. (refl, refl, refl)))

  -- However often a runner is started and stopped, and whatever fails on the way, when it neither
  -- runs nor stops it has no node and no executor, and each node has been closed as often as it has
  -- been configured. Starting a node is to neither add or remove nodes nor stop the runner.
  pub run_life_closes :
      (r : GraphRunner D) (side_packets : List (String × Packet D)) (ts : List (Transition D))
      → All MovesLawfully ts
      → (run_life (new_lifetime r side_packets) ts).runner.running ≡ false
      → (run_life (new_lifetime r side_packets) ts).runner.stopping ≡ false
      → let l = run_life (new_lifetime r side_packets) ts in
        (l.runner.nodes ≡ [])
        × (l.runner.executors ≡ [])
        × ((id : String) → tally (configured id) l.calls ≡ tally (closed id) l.calls)
  unfolding IsTidy IsBalanced occurrences
  run_life_closes r side_packets ts law a b =
      let l = run_life (new_lifetime r side_packets) ts in
      let tidy = run_life-IsTidy _ ts law (new_lifetime-IsTidy r side_packets) in
      let gone = tidy.1 a b in (gone.1, gone.2, λ id. ground (arith, tidy.0.0 id, gone.0))
