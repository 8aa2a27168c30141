-- ===== src/Node/Contract.antt =====
-- `NodeContract` of include/rkavp/node.hpp and src/core/node.cpp.
use rk_avp.Prelude.{
  Bool, true, false, ◌&&◌, not, List, [], ◌∷◌, Option, none, some, String, ◌=?◌, string_keys,
  if◌then◌else◌,
}
use rk_avp.Prelude.Maps.{contains, is_some}
use rk_avp.MediaCaps.{MediaCaps}
use rk_avp.ConfigValue.{Object}
use rk_avp.Status.{Status, Result, pass, fail, refuse_if, to_status, ◌>>=◌, ◌>>◌, ◌+s◌}
use rk_avp.Status

pub data InputPolicy : Type 0 where
  any_input sync latest : InputPolicy

pub record PortSpec : Type 0 where
  pub name : String
  pub caps : MediaCaps
  pub required : Bool

pub record NodeContract : Type 0 where
  pub inputs : List PortSpec
  pub outputs : List PortSpec
  pub required_options : List String
  pub input_policy : InputPolicy
  pub trigger_port : String

-- The first port of that name, in `FindInput` and in `FindOutput`.
unfoldable pub find_port : List PortSpec → String → Option PortSpec
find_port [] name = none
find_port (p ∷ ps) name = if p.name =? name then some p else find_port ps name

abbrev pub find_input : NodeContract → String → Option PortSpec
find_input c = find_port c.inputs

abbrev pub find_output : NodeContract → String → Option PortSpec
find_output c = find_port c.outputs

abbrev pub is_latest : InputPolicy → Bool
is_latest latest = true
is_latest _ = false

unfoldable pub check_required : List String → Object → Result (Unit {0})
check_required [] options = pass tt
check_required (name ∷ names) options = do
  refuse_if (not (contains name options)) (Status.invalid ("missing required option: " +s name))
  check_required names options

unfoldable pub validate_options : NodeContract → Object → Status
unfolding check_required
validate_options c options = to_status (do
  check_required c.required_options options
  refuse_if
      (is_latest c.input_policy
        && not (c.trigger_port =? "")
        && not (is_some (find_input c c.trigger_port)))
      (Status.invalid ("latest input policy trigger port does not exist: " +s c.trigger_port)))
