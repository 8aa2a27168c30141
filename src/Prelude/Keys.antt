-- ===== src/Prelude/Keys.antt =====
-- Equality of map keys, as an instance argument.
use Prim.Native.Nat.{ℕ}
use Prim.Native.String.{String}
use mathlib.Core.Path.{◌≡◌}
use mathlib.Core.Logic.{◌↔◌}
use mathlib.Core.Bool.{Bool, true}
use text.Mathlib.Text.{◌==◌ as str_eq}
use text.Mathlib.TextEquality.{eq_iff}
use rk_avp.Prelude.Tests.{◌==◌ as nat_eq, ==_iff}
use rk_avp.Prelude.Ints.{ℤ, eqb_ℤ, eqb_ℤ_iff}

pub record Eq {ℓ} (A : Type ℓ) : Type ℓ where
  pub beq : A → A → Bool
  pub beq_iff : (a b : A) → (beq a b ≡ true) ↔ (a ≡ b)

infix 50 ◌=?◌
abbrev pub ◌=?◌ {ℓ} : {A : Type ℓ} ⦃e : Eq A⦄ → A → A → Bool
◌=?◌ ⦃e⦄ = e.beq

instance abbrev pub string_keys : Eq String
string_keys = record { beq = str_eq; beq_iff = eq_iff }

instance abbrev pub nat_keys : Eq ℕ
nat_keys = record { beq = nat_eq; beq_iff = ==_iff }

instance abbrev pub int_keys : Eq ℤ
int_keys = record { beq = eqb_ℤ; beq_iff = eqb_ℤ_iff }
