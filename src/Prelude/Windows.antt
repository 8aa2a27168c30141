-- ===== src/Prelude/Windows.antt =====
-- What stays of a list that is kept to a limit by dropping its front.
use mathlib.Core.List.{append-nil}
use rk_avp.Prelude.Tests.{if◌then◌else◌, leb, leb→le, Bool-cases}
use rk_avp.Prelude.Lists.{length, length-append, append-snoc, drop, rest}
use Prim.Native.Nat.{ℕ, zero, suc, ◌-◌, ◌≤◌, ◌<◌}
use mathlib.Core.Path.{◌≡◌, refl, sym}
use mathlib.Core.Logic.{inl, inr}
use mathlib.Core.List.{List, [], ◌∷◌, ◌++◌}
use native.Mathlib.Omega.{arith}

module _ {ℓ} {A : Type ℓ} where
  -- One item more.
  abbrev pub shift : ℕ → List A → A → List A
  shift limit xs v = if leb limit (length xs) then rest xs ++ v ∷ [] else xs ++ v ∷ []

  unfoldable pub shift_in : ℕ → List A → List A → List A
  shift_in limit xs [] = xs
  shift_in limit xs (v ∷ vs) =
      shift_in limit (if leb limit (length xs) then rest xs ++ v ∷ [] else xs ++ v ∷ []) vs

  drop_zero : (n : ℕ) (xs : List A) → n ≡ 0 → drop n xs ≡ xs
  drop_zero zero xs h = refl
  drop_zero (suc n) xs h = absurd (omega arith)

  pub shift_in-drop :
      (limit : ℕ) (xs vs : List A)
      → 0 < limit
      → length xs ≤ limit
      → shift_in limit xs vs ≡ drop (length (xs ++ vs) - limit) (xs ++ vs)
  unfolding shift_in
  shift_in-drop limit xs [] c h = rw append-nil (sym (drop_zero _ xs (omega arith)))
  shift_in-drop limit [] (v ∷ vs) c h = ground (arith, shift_in-drop limit (v ∷ []) vs c)
  shift_in-drop limit (x ∷ xs) (v ∷ vs) c h = elim (Bool-cases (leb limit (length (x ∷ xs)))) [
    | inl full ↦
        let e : length (x ∷ xs ++ v ∷ vs) - limit ≡ suc (length (xs ++ v ∷ vs) - limit) =
          omega (arith, length-append xs (v ∷ vs), leb→le _ _ full) in
        rw (full, shift_in)
          (rw e (
            rw append-snoc at
              (shift_in-drop limit (xs ++ v ∷ []) vs c (omega (arith, length-append xs (v ∷ []))))))
    | inr room ↦
        rw (room, shift_in)
          (rw (append-snoc xs v vs) at (
            shift_in-drop limit (x ∷ xs ++ v ∷ []) vs c
              (ground (arith, length-append xs (v ∷ [])))))
  ]
