-- ===== src/Prelude/Names.antt =====
-- Sets of names as lists: membership as a Boolean test.
use mathlib.Core.Path.{◌≡◌, refl, subst}
use mathlib.Core.Logic.{inl, inr}
use mathlib.Core.Bool.{Bool, true, false, ◌||◌}
use mathlib.Core.List.{List, [], ◌∷◌, ◌++◌}
use native.Mathlib.Omega.{arith}
use Prim.Native.Nat.{ℕ, suc, ◌≤◌, ◌<◌}
use Prim.Native.String.{String}
use text.Mathlib.TextEquality.{eq_iff}
use rk_avp.Prelude.Tests.{if◌then◌else◌, Bool-cases}
use rk_avp.Prelude.Lists.{All, length}
use rk_avp.Prelude.Keys.{◌=?◌, string_keys}

-- `count(x) != 0`.
unfoldable pub member : String → List String → Bool
member x [] = false
member x (y ∷ ys) = y =? x || member x ys

-- `erase(x)`.
unfoldable pub remove : String → List String → List String
remove x [] = []
remove x (y ∷ ys) = let kept = remove x ys in if y =? x then kept else y ∷ kept

pub remove_absent : (x : String) (ys : List String) → member x ys ≡ false → remove x ys ≡ ys
unfolding member remove
remove_absent x [] h = refl
remove_absent x (y ∷ ys) h = ground (arith, remove_absent x ys)

pub All-member {ℓ} :
    (P : String → Type ℓ) (xs : List String) (x : String) → All P xs → member x xs ≡ true → P x
unfolding member
All-member P [] x h m = absurd (cc)
All-member P (y ∷ ys) x h m = elim (Bool-cases (y =? x)) [
  | inl e ↦ subst P ((eq_iff y x).0 e) h.0
  | inr e ↦ All-member P ys x h.1 (ground arith)
]

-- How many entries of the second list the first does not have.
unfoldable pub missing : List String → List String → ℕ
missing xs [] = 0
missing xs (y ∷ ys) = if member y xs then missing xs ys else suc (missing xs ys)

pub member-append :
    (x : String) (xs ys : List String) → member x (xs ++ ys) ≡ (member x xs || member x ys)
unfolding member
member-append x [] ys = refl
member-append x (y ∷ xs) ys = ground (arith, member-append x xs ys)

pub missing_mono : (n : String) (vs ns : List String) → missing (n ∷ vs) ns ≤ missing vs ns
unfolding missing member
missing_mono n vs [] = omega arith
missing_mono n vs (x ∷ ns) = ground (arith, missing_mono n vs ns)

pub missing-cons :
    (n : String) (vs ns : List String)
    → member n ns ≡ true
    → member n vs ≡ false
    → missing (n ∷ vs) ns < missing vs ns
unfolding missing member
missing-cons n vs [] i o = absurd (cc)
missing-cons n vs (x ∷ ns) i o = elim (Bool-cases (x =? n)) [
  | inl here ↦
      let e : x ≡ n = (eq_iff x n).0 here in ground (arith, e, eq_iff n x, missing_mono n vs ns)
  | inr there ↦ ground (arith, eq_iff n x, missing-cons n vs ns)
]

pub missing-nil : (ns : List String) → missing [] ns ≤ length ns
unfolding missing member
missing-nil [] = omega arith
missing-nil (x ∷ ns) = omega (arith, missing-nil ns)
