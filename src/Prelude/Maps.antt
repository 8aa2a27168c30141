-- ===== src/Prelude/Maps.antt =====
-- Hash maps and hash sets as association lists; the order of iteration is the order of the list.
use mathlib.Core.Path.{◌≡◌, refl}
use mathlib.Core.Bool.{Bool, true, false}
use mathlib.Core.Option.{Option, none, some}
use mathlib.Core.List.{List, [], ◌∷◌}
use native.Mathlib.Omega.{arith}
use rk_avp.Prelude.Tests.{if◌then◌else◌}
use rk_avp.Prelude.Keys.{Eq, ◌=?◌}

abbrev pub is_some {ℓ} : {V : Type ℓ} → Option V → Bool
is_some none = false
is_some (some v) = true

pub =?_refl {ℓ} : {K : Type ℓ} ⦃e : Eq K⦄ (k : K) → (k =? k) ≡ true
=?_refl ⦃e⦄ k = (e.beq_iff k k).1 refl

module _ {ℓ κ} {K : Type ℓ} {V : Type κ} ⦃e : Eq K⦄ where
  -- `find`, and `at`.
  unfoldable pub find : K → List (K × V) → Option V
  find k [] = none
  find k ((j, v) ∷ m) = if j =? k then some v else find k m

  -- `count(k) != 0`.
  unfoldable pub contains : K → List (K × V) → Bool
  unfolding find
  contains k m = is_some (find k m)

  -- `insert_or_assign`, and `m[k] = v`.
  unfoldable pub assign : K → V → List (K × V) → List (K × V)
  assign k v [] = (k, v) ∷ []
  assign k v ((j, w) ∷ m) = if j =? k then (k, v) ∷ m else (j, w) ∷ assign k v m

  -- `emplace`: a key that is there keeps its value. The flag is `.second`.
  unfoldable pub emplace : K → V → List (K × V) → List (K × V) × Bool
  unfolding contains
  emplace k v m = if contains k m then (m, false) else (assign k v m, true)

  unfoldable pub erase : K → List (K × V) → List (K × V)
  erase k [] = []
  erase k ((j, w) ∷ m) = let kept = erase k m in if j =? k then kept else (j, w) ∷ kept

  pub find-assign :
      (k j : K) (v : V) (m : List (K × V))
      → find j (assign k v m) ≡ (if k =? j then some v else find j m)
  unfolding find assign
  find-assign k j v [] = refl
  find-assign k j v ((i, w) ∷ m) =
      ground (arith, e.beq_iff k j, e.beq_iff i k, e.beq_iff i j, find-assign k j v m)

  pub find-erase :
      (k j : K) (m : List (K × V)) → find j (erase k m) ≡ (if k =? j then none else find j m)
  unfolding find erase
  find-erase k j [] = ground arith
  find-erase k j ((i, w) ∷ m) =
      ground (arith, e.beq_iff k j, e.beq_iff i k, e.beq_iff i j, find-erase k j m)

  pub find-emplace :
      (k j : K) (v : V) (m : List (K × V))
      → contains k m ≡ false
      → find j (emplace k v m).0 ≡ (if k =? j then some v else find j m)
  unfolding emplace
  find-emplace k j v m h = rw h (find-assign k j v m)

-- What a lookup falls back on.
abbrev pub or_else {ℓ} : {V : Type ℓ} → Option V → Option V → Option V
or_else none b = b
or_else (some a) b = some a
