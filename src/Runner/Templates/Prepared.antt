-- ===== src/Runner/Templates/Prepared.antt =====
-- What a template that a source runs is like, of src/core/graph_runner.cpp.
use rk_avp.Prelude.{◌≡◌, subst, true, not, some, String, ◌=?◌, any, string_keys, arith}
use rk_avp.Status.{Result, pass, fail, is_ok, ◌>>◌, >>=-pass, >>-pass, refuse_if-pass}
use rk_avp.ConfigValue.{ConfigValue}
use rk_avp.Graph.{GraphConfig, GraphPortConfig, SourceSlotConfig}
use rk_avp.Graph.Validation.{Registry, validate}
use rk_avp.Graph.Validation.WellFormed.{WellFormed, validate-WellFormed}
use rk_avp.Runner.Observers.{check_observer, default_options}
use rk_avp.Runner.Templates.Given.{HasOptions, override_nodes-HasOptions}
use rk_avp.Runner.Templates.{override_nodes, in_template, check_status, prepare_template}

in_template-pass {ℓ} :
    {A : Type ℓ} (slot : String) (r : Result A) (a : A) → in_template slot r ≡ pass a → r ≡ pass a
in_template-pass slot (pass b) a h = h
in_template-pass slot (fail s) a h = absurd (cc)

check_observer_output :
    (config : GraphConfig) (stream : String)
    → is_ok (check_observer config stream default_options true true) ≡ true
    → any (λ (o : GraphPortConfig). o.name =? stream) config.outputs ≡ true
unfolding check_observer
check_observer_output config stream h = ground (arith, h)

-- A source runs only a template that could be loaded, in which it changes nothing but options: each
-- node has the last of the source's options that are for it, by the node's id and the option, or by
-- the option alone where there is a single node, or else its own option; and then it is well formed
-- for the node types and has the slot's output stream.
pub prepare_template_lem :
    (types : Registry) (slot : SourceSlotConfig) (loaded : Result GraphConfig)
    (options : ConfigValue) (child : GraphConfig)
    → prepare_template (some types) slot loaded options ≡ pass child
    → ((config : GraphConfig) × (loaded ≡ pass config) × HasOptions options config child)
      × WellFormed types child
      × (any (λ (o : GraphPortConfig). o.name =? slot.output_stream) child.outputs ≡ true)
unfolding prepare_template
prepare_template_lem types slot loaded options child h =
    let later = (λ (config : GraphConfig).
      in_template slot.name (validate (some types) (override_nodes options config))
      >> (check_status (
            check_observer (override_nodes options config) slot.output_stream default_options true
              true)
          >> pass (override_nodes options config))) in
    let (config, loads, h1) = >>=-pass (in_template slot.name loaded) later h in
    let over = override_nodes options config in
    let valid = in_template slot.name (validate (some types) over) in
    let status = check_observer over slot.output_stream default_options true true in
    let (v, h2) = >>-pass valid (check_status status >> pass over) h1 in
    let (observed, h3) = refuse_if-pass (not (is_ok status)) status (pass over) h2 in
    let same : over ≡ child = cc in
    let well =
      validate-WellFormed types over
        (in_template-pass slot.name (validate (some types) over) tt v) in
    let out = check_observer_output over slot.output_stream (ground (arith, observed)) in
    (
      (
        config,
        in_template-pass slot.name loaded config loads,
        subst (HasOptions options config) same (override_nodes-HasOptions options config),
      ),
      subst (WellFormed types) same well,
      subst
          (λ (c : GraphConfig).
            any (λ (o : GraphPortConfig). o.name =? slot.output_stream) c.outputs ≡ true)
          same out,
    )
