-- ===== src/Runner/Sources/Steps.antt =====
-- The steps that threads make on the sources of a runner.
use rk_avp.Prelude.{ℕ, Bool, List, [], ◌∷◌, String, ℤ, string_keys}
use rk_avp.Status.{Status}
use rk_avp.Packet.{ControlEvent}
use rk_avp.ConfigValue.{ConfigValue}
use rk_avp.Graph.{SourceSlotConfig}
use rk_avp.Runner.Sources.{
  SourceTable, enter_source, finish_adding, receive, enter_drain, release_token, swap_sources,
  reset_sources,
}
use rk_avp.Runner.Restarts.{begin_removing, finish_removing, begin_restarting, finish_restarting}

-- The steps of the threads on the sources. `fails` is `AddSourceImpl` whose subgraph did not start;
-- `swaps` and `resets` are the two parts of `Stop` on the sources, between which others may run.
pub data Step : Type 0 where
  enters : String → SourceSlotConfig → String → ConfigValue → Bool → Step
  fails : String → Status → Step
  receives : String → ControlEvent → ℤ → Step
  enters_drain : ℕ → String → Step
  releases : ℕ → Step
  begins_removing : String → Step
  removes : String → Bool → String → Step
  begins_restarting : String → Step
  restarts : String → Bool → ℕ → Status → Step
  swaps resets : Step

unfoldable pub step : SourceTable → Step → SourceTable
step t (enters slot config id options sub) = (enter_source t slot config id options sub).0
step t (fails id status) = (finish_adding t id status).0
step t (receives id event now) = (receive t id event now).0
step t (enters_drain drain id) = (enter_drain t drain id).0
step t (releases drain) = release_token t drain
step t (begins_removing id) = (begin_removing t id).0
step t (removes id completed message) = (finish_removing t id completed message).0
step t (begins_restarting id) = (begin_restarting t id).0
step t (restarts id sub drain started) = (finish_restarting t id sub drain started).0
step t swaps = swap_sources t
step t resets = reset_sources t

unfoldable pub step_all : SourceTable → List Step → SourceTable
step_all t [] = t
step_all t (a ∷ later) = step_all (step t a) later
