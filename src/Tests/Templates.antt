-- ===== src/Tests/Templates.antt =====
-- A source whose template is a chain of two nodes, for src/core/graph_runner.cpp.
use rk_avp.Prelude.{◌≡◌, refl, true, false, [], ◌∷◌, some, pos, string_keys, any, ◌=?◌}
use rk_avp.Prelude.Names.{member, remove}
use rk_avp.Prelude.Maps.{find, assign, contains, emplace}
use rk_avp.Prelude.Texts.{after_prefix, has_char}
use rk_avp.Status.{pass}
use rk_avp.MediaCaps.{
  compatible_with, kinds_clash, formats_clash, sizes_clash, has_memory, share_memory,
}
use rk_avp.ConfigValue.{ConfigValue, object, field, end, integer, to_object}
use rk_avp.Node.Contract.{find_port, validate_options, check_required}
use rk_avp.Graph.{GraphConfig, GraphPortConfig, SourceSlotConfig}
use rk_avp.Graph.Acyclic.{find_cycle, visit, visit_roots, visit_each, leave, adjacent}
use rk_avp.Graph.Validation.{
  validate, add_executors, add_nodes, check_node, check_edges, check_edge, check_inputs,
  check_slots, validate_ports, validate_acyclic,
}
use rk_avp.Graph.Validation.WellFormed.{WellFormed}
use rk_avp.Runner.Observers.{check_observer}
use rk_avp.Runner.Templates.{override_each, override_nodes, prepare_template}
use rk_avp.Runner.Templates.Given.{HasOptions}
use rk_avp.Runner.Templates.Prepared.{prepare_template_lem}
use rk_avp.Tests.Graphs.{config, link, types}

abbrev cameras : SourceSlotConfig
cameras = record {
  name = "cameras";
  input_stream = "camera";
  subgraph_template = "chain.yaml";
  output_stream = "screen";
}

abbrev template : GraphConfig
template = config (link "a" "b" ∷ [])

abbrev rate : ConfigValue
rate = object (field "a.rate" (integer (pos 30)) (field "size" (integer (pos 2)) end))

rate_goes_to_a :
    prepare_template (some types) cameras (pass template) rate ≡ pass (override_nodes rate template)
unfolding validate add_executors add_nodes check_edges check_inputs check_slots validate_ports
    validate_acyclic find_cycle find contains emplace assign find_port validate_options
    check_required compatible_with kinds_clash formats_clash sizes_clash has_memory share_memory
    visit visit_roots visit_each leave check_node check_edge adjacent member remove prepare_template
    override_nodes override_each to_object after_prefix has_char check_observer any
rate_goes_to_a = refl

options_of_a :
    override_each false "a" (to_object (field "a.rate" (integer (pos 30)) end)) []
    ≡ ("rate", integer (pos 30)) ∷ []
unfolding override_each to_object after_prefix has_char assign
options_of_a = refl

prepare_template_lem_example :
    ((c : GraphConfig) × (pass template ≡ pass c)
      × HasOptions rate c (override_nodes rate template))
    × WellFormed types (override_nodes rate template)
    × (any (λ (o : GraphPortConfig). o.name =? "screen") (override_nodes rate template).outputs
        ≡ true)
prepare_template_lem_example =
    prepare_template_lem types cameras (pass template) rate (override_nodes rate template)
      rate_goes_to_a
