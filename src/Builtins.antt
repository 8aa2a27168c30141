-- ===== src/Builtins.antt =====
-- The nodes of src/core/builtin_nodes.cpp: the state of each, its `OnConfigure` and its `OnProcess`.
pub mod FlowLimiter
pub mod Credits
pub mod AdaptiveBatch
pub mod PacketRing
pub mod StreamDemux
use rk_avp.Prelude.{
  ℕ, zero, suc, ◌≡◌, Bool, true, false, ◌||◌, not, List, [], ◌∷◌, Option, none, some, String, ℤ,
  pos, negsuc, ltb_ℤ, leb_ℤ, if◌then◌else◌, ◌=?◌, string_keys,
}
use rk_avp.Status.{Status, Result, pass, fail}
use rk_avp.Status
use rk_avp.Packet.{Packet}
use rk_avp.Queue.{QueuePolicy, block, drop_oldest, drop_newest}
use rk_avp.ConfigValue.{ConfigValue, Object, text, find_option, get_integer_option}

-- How `OnProcess` ends: by `return context.Emit(port, packet)`, or by returning a status.
pub data Answer (D : Type 0) : Type 0 where
  emits : String → Packet D → Answer D
  returns : Status → Answer D

-- `static_cast<std::size_t>` of a value that is not negative.
abbrev pub to_size : ℤ → ℕ
to_size (pos n) = n
to_size (negsuc n) = 0

abbrev checked_size : (ℤ → Bool) → Result ℤ → String → Result ℕ
checked_size valid (fail s) message = fail (Status.invalid message)
checked_size valid (pass v) message =
    if valid v then pass (to_size v) else fail (Status.invalid message)

abbrev size_of : (ℤ → Bool) → Object → String → Option ConfigValue → ℕ → String → Result ℕ
size_of valid options key none current message = pass current
size_of valid options key (some v) current message =
    checked_size valid (get_integer_option options key) message

-- An option that keeps the current value when it is missing.
unfoldable pub positive_option : Object → String → ℕ → String → Result ℕ
positive_option options key current message =
    size_of (λ v. ltb_ℤ (pos 0) v) options key (find_option options key) current message

unfoldable pub size_option : Object → String → ℕ → String → Result ℕ
size_option options key current message =
    size_of (λ v. leb_ℤ (pos 0) v) options key (find_option options key) current message

abbrev policy_of : Option ConfigValue → QueuePolicy → QueuePolicy
policy_of (some (text s)) fallback =
    if s =? "block" then block else if s =? "drop_newest" then drop_newest else drop_oldest
policy_of _ fallback = fallback

unfoldable pub queue_policy_option : Object → String → QueuePolicy → QueuePolicy
queue_policy_option options name fallback = policy_of (find_option options name) fallback
