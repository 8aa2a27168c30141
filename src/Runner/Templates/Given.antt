-- ===== src/Runner/Templates/Given.antt =====
-- The options that the nodes of a template have from the source's options.
use rk_avp.Prelude.{
  ℕ, suc, ◌≡◌, refl, ap, ◌∙◌, Bool, true, ◌&&◌, ◌||◌, not, List, [], ◌∷◌, map, Option, none, some,
  String, if◌then◌else◌, ◌=?◌, ◌==◌, length, get_elem?, string_keys, arith,
}
use rk_avp.Prelude.Maps.{find, find-assign, or_else}
use rk_avp.Prelude.Texts.{after_prefix, after_prefix-eq, has_char, has_char-append}
use rk_avp.Status.{◌+s◌}
use rk_avp.ConfigValue.{
  ConfigValue, Object, Fields, null, boolean, integer, double_bits, text, array, object, end, field,
  to_object,
}
use rk_avp.Graph.{GraphConfig, NodeConfig}
use rk_avp.Graph.Loader.{dot}
use rk_avp.Graph.Merge.Overrides.{or_else_assoc, override_none, override_some, get_elem?-map}
use rk_avp.Runner.Templates.{override_node, override_each, option_overrides, override_nodes}

-- Whether an override of that name is for the option of the node: by the node's id and the option,
-- or, where there is a single node, by the option alone.
abbrev pub is_for : Bool → String → String → String → Bool
is_for single id key name =
    (name =? ((id +s ".") +s key)) || (single && (not (has_char dot name) && (name =? key)))

-- The last of the overrides that are for the option.
abbrev pub last_for : Bool → String → String → Object → Option ConfigValue
last_for single id key [] = none
last_for single id key ((name, v) ∷ os) =
    or_else (last_for single id key os) (if is_for single id key name then some v else none)

dotted : (id key : String) → has_char dot ((id +s ".") +s key) ≡ true
unfolding has_char
dotted id key =
    let a = has_char-append dot (id +s ".") key in
    let b = has_char-append dot id "." in ground (arith, a, b)

override_node_lem :
    (single : Bool) (id key name : String) (o : Option String) (v : ConfigValue) (options : Object)
    → after_prefix (id +s ".") name ≡ o
    → find key (override_node single o name v options)
      ≡ or_else (if is_for single id key name then some v else none) (find key options)
override_node_lem single id key name none v options h =
    ground (arith, override_none (id +s ".") key name h, find-assign name key v options)
override_node_lem single id key name (some k) v options h =
    let same = after_prefix-eq (id +s ".") name k h in
    let named = ap (has_char dot) same ∙ dotted id k in
    ground (arith, named, override_some (id +s ".") key name k h, find-assign k key v options)

override_each_lem :
    (single : Bool) (id key : String) (overrides options : Object)
    → find key (override_each single id overrides options)
      ≡ or_else (last_for single id key overrides) (find key options)
unfolding override_each
override_each_lem single id key [] options = refl
override_each_lem single id key ((name, v) ∷ overrides) options =
    override_each_lem single id key overrides
      (override_node single (after_prefix (id +s ".") name) name v options)
    ∙ ap (or_else (last_for single id key overrides))
        (override_node_lem single id key name (after_prefix (id +s ".") name) v options refl)
    ∙ or_else_assoc (last_for single id key overrides) _ (find key options)

length-map {ℓ κ} :
    {A : Type ℓ} {B : Type κ} (f : A → B) (xs : List A) → length (map f xs) ≡ length xs
length-map f [] = refl
length-map f (x ∷ xs) = ap suc (length-map f xs)

-- The fields of what is an object, each with its value; what is none has no field.
abbrev pub fields_of : ConfigValue → Object
fields_of (object end) = []
fields_of (object (field name v fs)) = (name, v) ∷ fields_of (object fs)
fields_of _ = []

fields-object : (fs : Fields) → to_object fs ≡ fields_of (object fs)
unfolding to_object
fields-object end = refl
fields-object (field name v fs) = ap (◌∷◌ (name, v)) (fields-object fs)

overrides-fields_of : (options : ConfigValue) → option_overrides options ≡ fields_of options
overrides-fields_of null = refl
overrides-fields_of (boolean b) = refl
overrides-fields_of (integer n) = refl
overrides-fields_of (double_bits n) = refl
overrides-fields_of (text s) = refl
overrides-fields_of (array is) = refl
overrides-fields_of (object fs) = fields-object fs

-- A graph whose nodes alone differ, each in its options: the last that the source gives it, or else
-- its own.
abbrev pub HasOptions : ConfigValue → GraphConfig → GraphConfig → Type 0
HasOptions options config child =
    (child ≡ record config { nodes = child.nodes })
    × (length child.nodes ≡ length config.nodes)
    × ((i : ℕ) (n : NodeConfig)
        → get_elem? config.nodes i ≡ some n
        → (m : NodeConfig) × (get_elem? child.nodes i ≡ some m)
          × (m ≡ record n { options = m.options })
          × ((key : String)
              → find key m.options
                ≡ or_else (last_for (length config.nodes == 1) n.id key (fields_of options))
                    (find key n.options)))

-- A node with what a source gives it.
abbrev given : ConfigValue → GraphConfig → NodeConfig → NodeConfig
given options config n = record n {
  options = override_each (length config.nodes == 1) n.id (option_overrides options) n.options;
}

pub override_nodes-HasOptions :
    (options : ConfigValue) (config : GraphConfig)
    → HasOptions options config (override_nodes options config)
unfolding override_nodes
override_nodes-HasOptions options config = (
  refl,
  length-map (given options config) config.nodes,
  λ i n at. (
    given options config n,
    get_elem?-map (given options config) config.nodes i n at,
    refl,
    λ key.
        override_each_lem (length config.nodes == 1) n.id key (option_overrides options) n.options
        ∙ ap (λ os. or_else (last_for (length config.nodes == 1) n.id key os) (find key n.options))
            (overrides-fields_of options),
  ),
)
