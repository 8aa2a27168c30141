-- ===== src/Graph/Loader.antt =====
-- The graph loader of src/core/graph_config.cpp. The YAML library, the file system and the environment are
-- the record `Yaml`: what a node is, its children, and its conversions, which throw what the
-- library throws. A function that fails gives no configuration, although the source leaves there
-- what it had parsed so far.
pub mod Values
pub mod Ensures
pub mod Wellformed
pub mod Checked
pub mod Own
pub mod Loaded
pub mod Endpoints
pub mod Sections
pub mod Root
use Prim.Native.Char.{Char}
use rk_avp.Prelude.{
  ℕ, ◌<◌, Bool, true, false, ◌||◌, not, List, [], ◌∷◌, All, Option, none, some, String, ℤ, ◌==◌,
  if◌then◌else◌, ◌=?◌, string_keys,
}
use rk_avp.Prelude.Texts.{split_last}
use rk_avp.Status.{Status, ◌+s◌}
use rk_avp.Status
use rk_avp.Queue.{QueuePolicy, block, drop_newest, drop_oldest}
use rk_avp.Node.Contract.{InputPolicy, any_input, sync, latest}
use rk_avp.Graph.{QueueConfig}

-- A value, a returned `Status`, a thrown `YAML::Exception`, a thrown `filesystem_error`, which the
-- loader does not catch, or a recursion that ran out of fuel.
pub data Parsed {ℓ} (A : Type ℓ) : Type ℓ where
  gives : A → Parsed A
  returns : Status → Parsed A
  throws : String → Parsed A
  escapes : String → Parsed A
  exhausted : Parsed A

infixl 5 ◌>>=◌ ◌>>◌
abbrev pub ◌>>=◌ {ℓ κ} : {A : Type ℓ} {B : Type κ} → Parsed A → (A → Parsed B) → Parsed B
gives a >>= f = f a
returns s >>= f = returns s
throws e >>= f = throws e
escapes e >>= f = escapes e
exhausted >>= f = exhausted

abbrev pub ◌>>◌ {ℓ} : {B : Type ℓ} → Parsed (Unit {0}) → Parsed B → Parsed B
m >> k = m >>= λ _. k

abbrev pub return_if : Bool → String → Parsed (Unit {0})
return_if true message = returns (Status.invalid message)
return_if false message = gives tt

-- What a call of the library comes to.
pub data Thrown {ℓ} (A : Type ℓ) : Type ℓ where
  answers : A → Thrown A
  raises : String → Thrown A

abbrev pub lift {ℓ} : {A : Type ℓ} → Thrown A → Parsed A
lift (answers a) = gives a
lift (raises e) = throws e

pub record Yaml : Type 1 where
  pub Node : Type 0
  pub is_map : Node → Bool
  pub is_sequence : Node → Bool
  pub is_scalar : Node → Bool
  pub is_null : Node → Bool
  pub scalar : Node → String
  pub items : Node → List Node
  pub entries : Node → List (Node × Node)
  -- `node[key]`; `none` converts to false.
  pub lookup : Node → String → Thrown (Option Node)
  pub to_string : Node → Thrown String
  pub to_size : Node → Thrown ℕ
  pub to_int : Node → Thrown ℤ
  pub to_bool : Node → Thrown Bool
  -- `YamlGraphLoader::ExpandEnvironment`, and `stod` with its pattern, as the bits of the double.
  pub expand : String → String
  pub double_of : String → Option ℕ
  -- The file system: `a / b`, `parent_path`, `weakly_canonical`, `lexically_normal`, and a file.
  pub join : String → String → String
  pub parent_path : String → String
  pub canonical : String → Thrown String
  pub normal : String → String
  pub read_file : String → Thrown Node
  -- The bound that the recursion on a node is given; on a node that holds itself by an alias, whose
  -- recursion has no end in the source, no bound is enough.
  pub depth : Node → ℕ

-- Every node is a finite tree, its children less deep than it: no alias stands inside the node that
-- it names.
abbrev pub AreTrees : Yaml → Type 0
AreTrees y =
    (n : y.Node)
    → All (λ m. y.depth m < y.depth n) (y.items n)
      × All (λ e. y.depth (e.1) < y.depth n) (y.entries n)

unfoldable pub parse_policy : String → QueuePolicy
parse_policy value =
    if value =? "block" then block else if value =? "drop_newest" then drop_newest else drop_oldest

abbrev pub policy_name : QueuePolicy → String
policy_name block = "block"
policy_name drop_newest = "drop_newest"
policy_name drop_oldest = "drop_oldest"

unfoldable pub parse_input_policy : String → Parsed InputPolicy
parse_input_policy value =
    if value =? "any"
    then gives any_input
    else if value =? "sync"
    then gives sync
    else if value =? "latest"
    then gives latest
    else returns (Status.invalid ("unknown input policy: " +s value))

abbrev pub dot : Char
dot = "."

abbrev pub bad_endpoint : String → Parsed (String × String)
bad_endpoint endpoint =
    returns (Status.invalid ("endpoint must use node.port syntax: " +s endpoint))

abbrev pub endpoint_of : String → Option (String × String) → Parsed (String × String)
endpoint_of endpoint none = bad_endpoint endpoint
endpoint_of endpoint (some (node, port)) =
    if (node =? "") || (port =? "") then bad_endpoint endpoint else gives (node, port)

unfoldable pub split_endpoint : String → Parsed (String × String)
split_endpoint endpoint = endpoint_of endpoint (split_last dot endpoint)

module _ (y : Yaml) where
  abbrev pub field : y.Node → String → Parsed (Option y.Node)
  field n key = lift (y.lookup n key)

  abbrev pub as_string : y.Node → Parsed String
  as_string n = lift (y.to_string n)

  abbrev pub as_size : y.Node → Parsed ℕ
  as_size n = lift (y.to_size n)

  abbrev pub as_int : y.Node → Parsed ℤ
  as_int n = lift (y.to_int n)

  abbrev pub as_bool : y.Node → Parsed Bool
  as_bool n = lift (y.to_bool n)

  abbrev pub load_file : String → Parsed y.Node
  load_file path = lift (y.read_file path)

  open y use {Node, is_map}

  -- `node[key] ? node[key].as<T>() : otherwise`.
  abbrev pub or_default {ℓ} : {A : Type ℓ} → Node → String → (Node → Parsed A) → A → Parsed A
  or_default n key convert otherwise =
      field n key >>= λ v. elim v [ none ↦ gives otherwise | some m ↦ convert m ]

  abbrev pub queue_of : Node → QueueConfig → String → Parsed QueueConfig
  queue_of value defaults name = do
    return_if (not (is_map value)) (name +s " must be a map")
    capacity ← or_default value "capacity" as_size defaults.capacity
    policy ← or_default value "policy" as_string (policy_name defaults.policy)
    return_if (capacity == 0) (name +s " capacity must be positive")
    gives (record { capacity = capacity; policy = parse_policy policy })

  unfoldable pub parse_queue : Option Node → QueueConfig → String → Parsed QueueConfig
  unfolding parse_policy
  parse_queue none defaults name = gives defaults
  parse_queue (some value) defaults name = queue_of value defaults name
