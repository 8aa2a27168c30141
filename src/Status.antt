-- ===== src/Status.antt =====
-- include/rkavp/status.hpp: a code with a message. A function of the source that returns a
-- `Status` early is written in the monad `Result`, and `to_status` is what its caller sees.
use Prim.Native.String.{◌++◌}
use rk_avp.Prelude.{◌≡◌, refl, Bool, true, false, String}
use rk_avp.StatusCode.{StatusCode}

pub record Status : Type 0 where
  pub code : StatusCode
  pub message : String

abbrev pub ok : Status
ok = record { code = StatusCode.ok; message = "" }

abbrev pub invalid : String → Status
invalid m = record { code = StatusCode.invalid_argument; message = m }

abbrev pub not_found : String → Status
not_found m = record { code = StatusCode.not_found; message = m }

abbrev pub already_exists : String → Status
already_exists m = record { code = StatusCode.already_exists; message = m }

abbrev pub failed_precondition : String → Status
failed_precondition m = record { code = StatusCode.failed_precondition; message = m }

abbrev pub internal : String → Status
internal m = record { code = StatusCode.internal; message = m }

abbrev pub cancelled : String → Status
cancelled m = record { code = StatusCode.cancelled; message = m }

abbrev pub unavailable : String → Status
unavailable m = record { code = StatusCode.unavailable; message = m }

abbrev pub is_ok_code : StatusCode → Bool
is_ok_code StatusCode.ok = true
is_ok_code _ = false

-- The method `ok()`.
abbrev pub is_ok : Status → Bool
is_ok s = is_ok_code s.code

-- `std::string::operator+`.
infixr 65 ◌+s◌
abbrev pub ◌+s◌ : String → String → String
a +s b = a ++ b

pub data Result {ℓ} (A : Type ℓ) : Type ℓ where
  pass : A → Result A
  fail : Status → Result A

infixl 5 ◌>>=◌ ◌>>◌
abbrev pub ◌>>=◌ {ℓ κ} : {A : Type ℓ} {B : Type κ} → Result A → (A → Result B) → Result B
pass a >>= f = f a
fail s >>= f = fail s

abbrev pub ◌>>◌ {ℓ} : {B : Type ℓ} → Result (Unit {0}) → Result B → Result B
m >> k = m >>= λ _. k

-- `if (bad) return status;`
abbrev pub refuse_if : Bool → Status → Result (Unit {0})
refuse_if true s = fail s
refuse_if false s = pass tt

abbrev pub to_status {ℓ} : {A : Type ℓ} → Result A → Status
to_status (pass a) = ok
to_status (fail s) = s

abbrev pub IsPass {ℓ} : {A : Type ℓ} → Result A → Type 0
IsPass (pass a) = Unit {0}
IsPass (fail s) = ⊥

-- What a chain of checks that passes says of its parts.
pub >>=-pass {ℓ κ} :
    {A : Type ℓ} {B : Type κ} (m : Result A) (f : A → Result B) {b : B}
    → (m >>= f) ≡ pass b
    → (a : A) × (m ≡ pass a) × (f a ≡ pass b)
>>=-pass (pass a) f h = (a, refl, h)
>>=-pass (fail s) f h = absurd (cc)

pub >>-pass {ℓ} :
    {B : Type ℓ} (m : Result (Unit {0})) (k : Result B) {b : B}
    → (m >> k) ≡ pass b
    → (m ≡ pass tt) × (k ≡ pass b)
>>-pass (pass a) k h = (refl, h)
>>-pass (fail s) k h = absurd (cc)

pub refuse_if-pass {ℓ} :
    {B : Type ℓ} (b : Bool) (s : Status) (k : Result B) {c : B}
    → (refuse_if b s >> k) ≡ pass c
    → (b ≡ false) × (k ≡ pass c)
refuse_if-pass true s k h = absurd (cc)
refuse_if-pass false s k h = (refl, h)
