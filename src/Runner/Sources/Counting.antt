-- ===== src/Runner/Sources/Counting.antt =====
-- `active_sources_` against the sources that are active, over sequences of steps.
use rk_avp.Prelude.{◌≡◌, refl, Bool, true, false, List, [], ◌∷◌, if_lem, string_keys, arith, subst}
use rk_avp.Prelude.Maps.{find}
use rk_avp.Status.{Status}
use rk_avp.Runner.Sources.Steps.{
  Step, step, step_all, enters, fails, receives, enters_drain, releases, begins_removing, removes,
  begins_restarting, restarts, swaps, resets,
}
use rk_avp.Runner.Sources.{
  SourceTable, erase_source, finish_adding, receive, enter_drain, release_token, swap_sources,
  reset_sources,
}
use rk_avp.Runner.Restarts.{begin_removing, finish_removing, begin_restarting, finish_restarting}
use rk_avp.Runner.Sources.Counts.{
  IsCounted, active_of, enters-IsCounted, erased-IsCounted, fails-IsCounted, receives-IsCounted,
  removing-IsCounted, restarted-IsCounted, restarting-IsCounted, stalled-IsCounted,
}

-- Whether `Stop` is between taking the sources away and resetting the counter, after a step.
abbrev pub stopping : Bool → Step → Bool
stopping b swaps = true
stopping b resets = false
stopping b _ = b

-- A subgraph that does not start belongs to a source that is there and still active, and no source
-- enters while `Stop` is between its two parts.
abbrev pub Allowed : Bool → SourceTable → Step → Type 0
Allowed b t (enters slot config id options sub) = b ≡ false
Allowed b t (fails id status) = active_of (find id t.sources) ≡ 1
Allowed b t resets = b ≡ true
Allowed b t _ = Unit {0}

-- The steps end when no `Stop` is between its two parts.
abbrev pub AllAllowed : Bool → SourceTable → List Step → Type 0
AllAllowed b t [] = b ≡ false
AllAllowed b t (a ∷ later) = Allowed b t a × AllAllowed (stopping b a) (step t a) later

-- Between the two parts of `Stop` there is no source.
abbrev Counts : Bool → SourceTable → Type 0
Counts true t = t.sources ≡ []
Counts false t = IsCounted t

step-IsCounted :
    (t : SourceTable) (a : Step)
    → Allowed false t a
    → IsCounted t
    → Counts (stopping false a) (step t a)
unfolding step receive begin_removing finish_removing begin_restarting finish_restarting enter_drain
    release_token swap_sources reset_sources
step-IsCounted t (enters slot config id options sub) f h =
    enters-IsCounted t slot config id options sub h
step-IsCounted t (fails id status) f h = fails-IsCounted t id status f h
step-IsCounted t (receives id event now) f h =
    receives-IsCounted t id (find id t.sources) event now refl h
step-IsCounted t (enters_drain drain id) f h = ground arith
step-IsCounted t (releases drain) f h = ground arith
step-IsCounted t (begins_removing id) f h = removing-IsCounted t id (find id t.sources) refl h
step-IsCounted t (removes id completed message) f h =
    if_lem {A = SourceTable × Status} (λ r. IsCounted (r.0)) completed
      (λ k. erased-IsCounted t id (find id t.sources) refl h)
      (λ k. stalled-IsCounted t id (find id t.sources) message refl h)
step-IsCounted t (begins_restarting id) f h = restarting-IsCounted t id (find id t.sources) refl h
step-IsCounted t (restarts id sub drain started) f h =
    restarted-IsCounted t id (find id t.sources) sub drain started refl h
step-IsCounted t swaps f h = refl
step-IsCounted t resets f h = absurd (cc)

-- No step but an entering source puts one into an empty table.
step_empty :
    (t : SourceTable) (a : Step)
    → Allowed true t a
    → t.sources ≡ []
    → Counts (stopping true a) (step t a)
unfolding step receive begin_removing finish_removing begin_restarting finish_restarting enter_drain
    release_token swap_sources reset_sources finish_adding find erase_source
step_empty t (enters slot config id options sub) f h = absurd (cc)
step_empty t (fails id status) f h = ground (arith, f, h)
step_empty t (receives id event now) f h = ground (arith, h)
step_empty t (enters_drain drain id) f h = ground (arith, h)
step_empty t (releases drain) f h = ground (arith, h)
step_empty t (begins_removing id) f h = ground (arith, h)
step_empty t (removes id completed message) f h = ground (arith, h)
step_empty t (begins_restarting id) f h = ground (arith, h)
step_empty t (restarts id sub drain started) f h = ground (arith, h)
step_empty t swaps f h = refl
step_empty t resets f h = ground (arith, h)

step_all-Counts :
    (b : Bool) (t : SourceTable) (steps : List Step)
    → AllAllowed b t steps
    → Counts b t
    → IsCounted (step_all t steps)
unfolding step_all
step_all-Counts b t [] f h = subst (λ c. Counts c t) f h
step_all-Counts true t (a ∷ later) f h =
    step_all-Counts (stopping true a) (step t a) later f.1 (step_empty t a f.0 h)
step_all-Counts false t (a ∷ later) f h =
    step_all-Counts (stopping false a) (step t a) later f.1 (step-IsCounted t a f.0 h)

-- Over any sequence of steps on the sources, at whose end no `Stop` is between its two parts,
-- `active_sources_` is the number of active sources, modulo 2^64, as long as a subgraph that fails
-- to start belongs to a source that is there and still active, and no source enters while `Stop`
-- is between taking the sources away and resetting the counter.
pub step_all-IsCounted :
    (t : SourceTable) (steps : List Step)
    → AllAllowed false t steps
    → IsCounted t
    → IsCounted (step_all t steps)
step_all-IsCounted t steps f h = step_all-Counts false t steps f h
