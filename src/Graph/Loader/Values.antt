-- ===== src/Graph/Loader/Values.antt =====
-- `ParseValue` of src/core/graph_config.cpp: YAML values as configuration values. It recurses on fuel,
-- one more than the depth of the node.
use Prim.Native.Char.{code}
use rk_avp.Prelude.{
  ℕ, zero, suc, ◌+◌, ◌-◌, ◌*◌, Bool, true, false, ◌&&◌, ◌||◌, List, [], ◌∷◌, Option, none, some,
  String, ℤ, pos, negsuc, ltb, leb, ◌==◌, if◌then◌else◌, ◌=?◌, string_keys,
}
use rk_avp.Prelude.Maps.{or_else}
use rk_avp.ConfigValue.{
  ConfigValue, Items, Fields, null, boolean, integer, double_bits, text, array, object, nil, item,
  end, field,
}
use rk_avp.Graph.Loader.{as_string, Yaml, Parsed, gives, exhausted, ◌>>=◌}

-- The number that the digits spell, after those before them; `none` on another character.
digits_from : ℕ → String → Option ℕ
digits_from n String.[] = some n
digits_from n (String.◌∷◌ c s) =
    let later = digits_from (n * 10 + (code c - 48)) s in
    if leb 48 (code c) && leb (code c) 57 then later else none

-- `[0-9]+`.
unfoldable pub digits : String → Option ℕ
unfolding digits_from
digits String.[] = none
digits (String.◌∷◌ c s) = digits_from 0 (String.◌∷◌ c s)

-- What an int64 holds.
abbrev positive : Option ℕ → Option ℤ
positive none = none
positive (some n) = if ltb n 9223372036854775808 then some (pos n) else none

abbrev negative : Option ℕ → Option ℤ
negative none = none
negative (some zero) = some (pos 0)
negative (some (suc n)) = if ltb n 9223372036854775808 then some (negsuc n) else none

-- `stoll` of a text that matches the pattern of integers; `none` where it does not match, or throws.
unfoldable pub integer_of_text : String → Option ℤ
unfolding digits
integer_of_text String.[] = none
integer_of_text (String.◌∷◌ c s) =
    if code c == 45
    then negative (digits s)
    else if code c == 43
    then positive (digits s)
    else positive (digits (String.◌∷◌ c s))

abbrev pub map_option {ℓ κ} : {A : Type ℓ} {B : Type κ} → (A → B) → Option A → Option B
map_option f none = none
map_option f (some a) = some (f a)

abbrev pub has_field : String → Fields → Bool
has_field k end = false
has_field k (field j v fs) = j =? k || has_field k fs

-- `emplace` on an object, at its front; the first value of a key counts.
abbrev pub emplace_field : String → ConfigValue → Fields → Fields
emplace_field k v end = field k v end
emplace_field k v (field j w fs) = if j =? k then field j w fs else field j w (emplace_field k v fs)

module _ (y : Yaml) where
  open y use {Node, is_map, is_sequence, is_null, scalar, items, entries, expand, double_of}

  abbrev pub scalar_value : String → ConfigValue
  scalar_value s =
      if s =? "true"
      then boolean true
      else if s =? "false"
      then boolean false
      else elim (or_else (map_option integer (integer_of_text s))
          (map_option double_bits (double_of s))) [ none ↦ text s | some v ↦ v ]

  abbrev pub items_by : (Node → Parsed ConfigValue) → List Node → Parsed Items
  items_by parse [] = gives nil
  items_by parse (n ∷ ns) = parse n >>= λ v. items_by parse ns >>= λ vs. gives (item v vs)

  -- The entries are emplaced from the first on.
  abbrev pub fields_by : (Node → Parsed ConfigValue) → List (Node × Node) → Fields → Parsed Fields
  fields_by parse [] fs = gives fs
  fields_by parse (e ∷ es) fs =
      (as_string y) (e.0) >>= λ k. parse (e.1) >>= λ v. fields_by parse es (emplace_field k v fs)

  unfoldable pub parse_value : ℕ → Node → Parsed ConfigValue
  unfolding integer_of_text
  parse_value zero n = exhausted
  parse_value (suc fuel) n =
      if is_null n
      then gives null
      else if is_sequence n
      then (items_by (parse_value fuel) (items n) >>= λ vs. gives (array vs))
      else if is_map n
      then (fields_by (parse_value fuel) (entries n) end >>= λ fs. gives (object fs))
      else gives (scalar_value (expand (scalar n)))
