-- ===== src/Runner/Sources/Miscounts.antt =====
-- Two orders of steps on the sources after which `active_sources_` is wrong.
use rk_avp.Prelude.{
  ◌+◌, ◌≡◌, refl, true, false, [], ◌∷◌, none, some, String, ℤ, length, string_keys, arith,
}
use rk_avp.Prelude.Maps.{find, assign, contains, find-assign, =?_refl}
use rk_avp.Status.{Status, is_ok}
use rk_avp.Packet.{end_of_stream}
use rk_avp.ConfigValue.{ConfigValue}
use rk_avp.Graph.{SourceSlotConfig}
use rk_avp.Runner.Sources.Steps.{step, step_all, enters, fails, receives}
use rk_avp.Runner.Sources.{
  SourceTable, SourceRuntime, increase, decrease, enter_source, finish_adding, receive, connecting,
  new_health, swap_sources, reset_sources, eos, with_state,
}
use rk_avp.Runner.Restarts.{finish_removing}
use rk_avp.Runner.Sources.Counts.{count_active, IsCounted, count_active-assign, count_active-erase}

abbrev fresh : SourceTable → String → SourceSlotConfig → String → ConfigValue → SourceRuntime
fresh t slot config id options = record {
  slot = slot;
  input_stream = config.input_stream;
  source_id = id;
  options = options;
  health = record new_health { state = connecting };
  has_subgraph = true;
  drain = length t.drains;
  active = true;
}

-- What is left of a source whose stream ended before its subgraph failed to start.
failed_at :
    (t : SourceTable) (id : String) (s : SourceRuntime) (now : ℤ) (status : Status)
    → is_ok status ≡ false
    → find id t.sources ≡ some s
    → s.active ≡ true
    → let t' = (finish_adding (receive t id end_of_stream now).0 id status).0 in
      (count_active t'.sources + 1 ≡ count_active t.sources)
      × (t'.active_sources ≡ decrease (decrease t.active_sources))
unfolding receive finish_adding
failed_at t id s now status n f a =
    let s' = with_state eos (record s { active = false }) in
    ground (
      arith,
      f,
      find-assign id id s' t.sources,
      =?_refl id,
      count_active-assign id s' t.sources,
      count_active-erase id (assign id s' t.sources),
    )

entered_lem :
    (t : SourceTable) (slot : String) (config : SourceSlotConfig) (id : String)
    (options : ConfigValue)
    → find id t.sources ≡ none
    → let t' = (enter_source t slot config id options true).0 in
      (find id t'.sources ≡ some (fresh t slot config id options))
      × (count_active t'.sources ≡ count_active t.sources + 1)
      × (t'.active_sources ≡ increase t.active_sources)
unfolding enter_source contains
entered_lem t slot config id options f =
    let s = fresh t slot config id options in
    ground (arith, f, find-assign id id s t.sources, =?_refl id, count_active-assign id s t.sources)

-- Where the subgraph of a new source has ended its stream and then fails to start, the source is
-- taken off the count twice: the count is one less than before, and where no source was active, it
-- is the largest 64-bit number.
pub failed_start_miscounts :
    (t : SourceTable) (slot : String) (config : SourceSlotConfig) (id : String)
    (options : ConfigValue) (now : ℤ) (status : Status)
    → is_ok status ≡ false
    → find id t.sources ≡ none
    → IsCounted t
    → let t' = step_all t (
        enters slot config id options true
        ∷ receives id end_of_stream now
        ∷ fails id status
        ∷ []) in
      (count_active t'.sources ≡ count_active t.sources)
      × (t'.active_sources ≡ decrease t.active_sources)
      × (t.active_sources ≡ 0 → t'.active_sources ≡ 18446744073709551615)
unfolding step_all step
failed_start_miscounts t slot config id options now status n f h =
    let t' = (enter_source t slot config id options true).0 in
    let (e, c, a) = entered_lem t slot config id options f in
    let (c', a') = failed_at t' id (fresh t slot config id options) now status n e refl in
    (omega (arith, c, c'), omega (arith, a, a', h), λ z. omega (arith, a, a', z))

-- A source that enters while `Stop` runs, after the sources were taken away and before the counter
-- is reset, stays in the table of the stopped runner and is not counted; when it is removed later,
-- the counter becomes the largest 64-bit number.
pub late_source_miscounts :
    (t : SourceTable) (slot : String) (config : SourceSlotConfig) (id : String)
    (options : ConfigValue) (message : String)
    → let t' = reset_sources (enter_source (swap_sources t) slot config id options true).0 in
      (count_active t'.sources ≡ 1)
      × (t'.active_sources ≡ 0)
      × ((finish_removing t' id true message).0.active_sources ≡ 18446744073709551615)
unfolding swap_sources reset_sources finish_removing find
late_source_miscounts t slot config id options message =
    let (e, c, a) = entered_lem (swap_sources t) slot config id options refl in
    (omega (arith, c), refl, ground (arith, e))
