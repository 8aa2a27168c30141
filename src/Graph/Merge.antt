-- ===== src/Graph/Merge.antt =====
-- `MergeSubgraph` of src/core/graph_config.cpp, and the overriding of node options by names such as
-- `node.option`.

pub mod Overrides
use rk_avp.Prelude.{
  [], ◌∷◌, ◌++◌, map, Option, none, some, String, if◌then◌else◌, ◌=?◌, string_keys,
}
use rk_avp.Prelude.Maps.{assign}
use rk_avp.Prelude.Texts.{after_prefix}
use rk_avp.Status.{Status, Result, pass, fail, ◌+s◌}
use rk_avp.Status
use rk_avp.ConfigValue.{ConfigValue, Object}
use rk_avp.Graph.{GraphConfig, NodeConfig, EdgeConfig}

-- The options after one override, whose name may start with the node's prefix.
abbrev pub override_by : Option String → ConfigValue → Object → Object
override_by none v options = options
override_by (some name) v options = assign name v options

-- The overrides whose names start with `id.`, one after the other.
unfoldable pub override_options : String → Object → Object → Object
override_options id [] options = options
override_options id ((name, v) ∷ overrides) options =
    override_options id overrides (override_by (after_prefix (id +s ".") name) v options)

abbrev pub merge_node : String → Object → NodeConfig → NodeConfig
merge_node prefix overrides n = record n {
  id = prefix +s "." +s n.id;
  options = override_options n.id overrides n.options;
}

abbrev pub merge_edge : String → EdgeConfig → EdgeConfig
merge_edge prefix e = record e {
  from_node = prefix +s "." +s e.from_node;
  to_node = prefix +s "." +s e.to_node;
}

unfoldable pub merge_subgraph : GraphConfig → GraphConfig → String → Object → Result GraphConfig
unfolding override_options
merge_subgraph parent child prefix overrides =
    if prefix =? ""
    then fail (Status.invalid "parent graph and prefix are required")
    else pass (record parent {
      nodes = parent.nodes ++ map (merge_node prefix overrides) child.nodes;
      edges = parent.edges ++ map (merge_edge prefix) child.edges;
    })
