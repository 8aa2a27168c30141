-- ===== src/Runner/Templates.antt =====
-- The subgraph of a source that `AddSourceImpl` of src/core/graph_runner.cpp builds from the template
-- of its slot. What the loader makes of the template's file is given.
pub mod Given
pub mod Prepared
use rk_avp.Prelude.{
  ℕ, Bool, true, false, ◌&&◌, not, List, [], ◌∷◌, map, Option, none, some, String, if◌then◌else◌,
  ◌=?◌, ◌==◌, length, string_keys,
}
use rk_avp.Prelude.Maps.{assign}
use rk_avp.Prelude.Texts.{after_prefix, has_char}
use rk_avp.Status.{Status, Result, pass, fail, is_ok, refuse_if, ◌>>=◌, ◌>>◌, ◌+s◌}
use rk_avp.Status
use rk_avp.ConfigValue.{ConfigValue, Object, object, to_object}
use rk_avp.Graph.{GraphConfig, NodeConfig, SourceSlotConfig}
use rk_avp.Graph.Loader.{dot}
use rk_avp.Graph.Validation.{Registry, validate}
use rk_avp.Runner.Observers.{check_observer, default_options}

-- One override: of the node that its name starts with, or, where there is a single node, of that
-- when the name has no dot. `rest` is the name after the node's prefix.
abbrev pub override_node : Bool → Option String → String → ConfigValue → Object → Object
override_node single (some rest) name v options = assign rest v options
override_node single none name v options =
    if single && not (has_char dot name) then assign name v options else options

unfoldable pub override_each : Bool → String → Object → Object → Object
override_each single id [] options = options
override_each single id ((name, v) ∷ overrides) options =
    override_each single id overrides
      (override_node single (after_prefix (id +s ".") name) name v options)

-- What is no object overrides nothing.
abbrev pub option_overrides : ConfigValue → Object
option_overrides (object fields) = to_object fields
option_overrides _ = []

unfoldable pub override_nodes : ConfigValue → GraphConfig → GraphConfig
unfolding override_each
override_nodes options config = record config {
  nodes =
      map
        (λ (n : NodeConfig). record n {
          options =
              override_each (length config.nodes == 1) n.id (option_overrides options) n.options;
        })
        config.nodes;
}

abbrev pub in_template {ℓ} : {A : Type ℓ} → String → Result A → Result A
in_template slot (pass a) = pass a
in_template slot (fail s) = fail (Status.invalid ("source template " +s slot +s ": " +s s.message))

-- `if (!status.ok()) return status;`
abbrev pub check_status : Status → Result (Unit {0})
check_status s = refuse_if (not (is_ok s)) s

unfoldable pub prepare_template :
    Option Registry → SourceSlotConfig → Result GraphConfig → ConfigValue → Result GraphConfig
unfolding override_nodes
prepare_template registry slot loaded options = in_template slot.name loaded >>= λ config.
    in_template slot.name (validate registry (override_nodes options config))
    >> (check_status (
          check_observer (override_nodes options config) slot.output_stream default_options true
            true)
        >> pass (override_nodes options config))
