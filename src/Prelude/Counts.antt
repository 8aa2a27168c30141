-- ===== src/Prelude/Counts.antt =====
-- How often a number or a name is in a list.
use Prim.Native.Nat.{ℕ, suc, ◌+◌}
use Prim.Native.String.{String}
use mathlib.Core.Path.{◌≡◌}
use mathlib.Core.Bool.{Bool, true, false}
use mathlib.Core.List.{List, [], ◌∷◌, ◌++◌}
use native.Mathlib.Omega.{arith}
use rk_avp.Prelude.Tests.{◌==◌, if◌then◌else◌}
use rk_avp.Prelude.Keys.{◌=?◌, string_keys}

unfoldable pub count : ℕ → List ℕ → ℕ
count id [] = 0
count id (other ∷ ids) = let n = count id ids in if other == id then suc n else n

pub count-append : (id : ℕ) (xs ys : List ℕ) → count id (xs ++ ys) ≡ count id xs + count id ys
unfolding count
count-append id [] ys = omega arith
count-append id (x ∷ xs) ys = ground (arith, count-append id xs ys)

unfoldable pub occurrences : String → List String → ℕ
occurrences s [] = 0
occurrences s (other ∷ ss) = let n = occurrences s ss in if s =? other then suc n else n

pub occurrences-append :
    (s : String) (xs ys : List String)
    → occurrences s (xs ++ ys) ≡ occurrences s xs + occurrences s ys
unfolding occurrences
occurrences-append s [] ys = omega arith
occurrences-append s (x ∷ xs) ys = ground (arith, occurrences-append s xs ys)

-- A test as 1 or 0.
abbrev pub as_number : Bool → ℕ
as_number true = 1
as_number false = 0
