-- ===== src/Timestamp.antt =====
-- include/rkavp/timestamp.hpp: microseconds as an int64 with two reserved values. `FromTicks`
-- computes in `long double` and is left out.
use rk_avp.Prelude.{Bool, ◌&&◌, not, ℤ, pos, negsuc, ltb_ℤ, leb_ℤ, eqb_ℤ, ◌≤ℤ◌}

pub record Timestamp : Type 0 where
  pub microseconds : ℤ

abbrev pub unset_value : ℤ
unset_value = negsuc 9223372036854775807

abbrev pub done_value : ℤ
done_value = pos 9223372036854775807

abbrev pub unset : Timestamp
unset = record { microseconds = unset_value }

abbrev pub done : Timestamp
done = record { microseconds = done_value }

abbrev pub from_microseconds : ℤ → Timestamp
from_microseconds v = record { microseconds = v }

abbrev pub is_unset : Timestamp → Bool
is_unset t = eqb_ℤ t.microseconds unset_value

abbrev pub is_done : Timestamp → Bool
is_done t = eqb_ℤ t.microseconds done_value

abbrev pub is_range_value : Timestamp → Bool
is_range_value t = not (is_unset t) && not (is_done t)

-- `operator<` and `operator<=`.
abbrev pub lt : Timestamp → Timestamp → Bool
lt a b = ltb_ℤ a.microseconds b.microseconds

abbrev pub le : Timestamp → Timestamp → Bool
le a b = leb_ℤ a.microseconds b.microseconds

infix 50 ◌≤ₜ◌
abbrev pub ◌≤ₜ◌ : Timestamp → Timestamp → Type 0
a ≤ₜ b = a.microseconds ≤ℤ b.microseconds

-- What an int64 holds.
abbrev pub IsInt64 : Timestamp → Type 0
IsInt64 t = (unset ≤ₜ t) × (t ≤ₜ done)
