-- ===== src/ConfigValue.antt =====
-- include/rkavp/config_value.hpp, and the option getters of src/core/node.cpp. A double is kept as
-- its 64 bits. An output pointer is the result.
use rk_avp.Prelude.{ℕ, Bool, true, false, List, [], ◌∷◌, Option, none, some, String, ℤ, string_keys}
use rk_avp.Prelude.Maps.{find}
use rk_avp.Status.{Status, Result, pass, fail, ◌+s◌}
use rk_avp.Status

mutual
  pub data ConfigValue : Type 0 where
    null : ConfigValue
    boolean : Bool → ConfigValue
    integer : ℤ → ConfigValue
    double_bits : ℕ → ConfigValue
    text : String → ConfigValue
    array : Items → ConfigValue
    object : Fields → ConfigValue

  pub data Items : Type 0 where
    nil : Items
    item : ConfigValue → Items → Items

  pub data Fields : Type 0 where
    end : Fields
    field : String → ConfigValue → Fields → Fields

abbrev pub Object : Type 0
Object = List (String × ConfigValue)

-- `AsObject` of an object.
unfoldable pub to_object : Fields → Object
to_object end = []
to_object (field k v fs) = (k, v) ∷ to_object fs

abbrev pub is_null : ConfigValue → Bool
is_null null = true
is_null _ = false

unfoldable pub find_option : Object → String → Option ConfigValue
find_option options key = find key options

abbrev string_of : String → Option ConfigValue → Result String
string_of key none = fail (Status.not_found ("option not found: " +s key))
string_of key (some (text s)) = pass s
string_of key (some v) = fail (Status.invalid ("option must be a string: " +s key))

abbrev integer_of : String → Option ConfigValue → Result ℤ
integer_of key none = fail (Status.not_found ("option not found: " +s key))
integer_of key (some (integer n)) = pass n
integer_of key (some v) = fail (Status.invalid ("option must be an integer: " +s key))

abbrev bool_of : String → Option ConfigValue → Result Bool
bool_of key none = fail (Status.not_found ("option not found: " +s key))
bool_of key (some (boolean b)) = pass b
bool_of key (some v) = fail (Status.invalid ("option must be a boolean: " +s key))

unfoldable pub get_string_option : Object → String → Result String
unfolding find_option
get_string_option options key = string_of key (find_option options key)

unfoldable pub get_integer_option : Object → String → Result ℤ
unfolding find_option
get_integer_option options key = integer_of key (find_option options key)

unfoldable pub get_bool_option : Object → String → Result Bool
unfolding find_option
get_bool_option options key = bool_of key (find_option options key)
