-- ===== src/Graph/Loader/Ensures.antt =====
-- What a parser comes to: a value with a property, a status or an exception, but not the end of the
-- fuel; with a rule for each way to build a parser.
use rk_avp.Prelude.{◌≡◌, refl, Bool, true, false, Option, none, some, String, if◌then◌else◌}
use rk_avp.Prelude.{subst}
use rk_avp.Status.{Status}
use rk_avp.Graph.Loader.{
  Yaml, Thrown, answers, raises, Parsed, gives, returns, throws, escapes, exhausted, ◌>>=◌, ◌>>◌,
  lift, return_if, or_default, field,
}

pub data Ensures {A : Type 0} (P : A → Type 0) : Parsed A → Type 0 where
  ensured : (a : A) → P a → Ensures P (gives a)
  returned : (s : Status) → Ensures P (returns s)
  thrown : (e : String) → Ensures P (throws e)
  escaped : (e : String) → Ensures P (escapes e)

abbrev pub Ends : {A : Type 0} → Parsed A → Type 0
Ends m = Ensures (λ _. Unit {0}) m

abbrev Given : {A : Type 0} → (A → Type 0) → Parsed A → Type 0
Given P (gives a) = P a
Given P _ = Unit {0}

module _ {A : Type 0} {P : A → Type 0} where
  pub not_exhausted : (m : Parsed A) → Ensures P m → m ≡ exhausted → ⊥
  not_exhausted _ (ensured a p) e = cc
  not_exhausted _ (returned s) e = cc
  not_exhausted _ (thrown t) e = cc
  not_exhausted _ (escaped t) e = cc

  given : (m : Parsed A) → Ensures P m → Given P m
  given _ (ensured a p) = p
  given _ (returned s) = tt
  given _ (thrown e) = tt
  given _ (escaped e) = tt

  pub ensured_value : (m : Parsed A) (a : A) → Ensures P m → m ≡ gives a → P a
  ensured_value m a h e = subst (Given P) e (given m h)

  pub Ensures-if :
      (b : Bool) (m n : Parsed A) → Ensures P m → Ensures P n → Ensures P (if b then m else n)
  Ensures-if true m n hm hn = hm
  Ensures-if false m n hm hn = hn

module _ {A B : Type 0} {P : B → Type 0} where
  pub Ensures-bind :
      (Q : A → Type 0) (m : Parsed A) (f : A → Parsed B)
      → Ensures Q m
      → ((a : A) → Q a → Ensures P (f a))
      → Ensures P (m >>= f)
  Ensures-bind Q _ f (ensured a q) h = h a q
  Ensures-bind Q _ f (returned s) h = returned s
  Ensures-bind Q _ f (thrown e) h = thrown e
  Ensures-bind Q _ f (escaped e) h = escaped e

  pub Ensures-bind_end :
      (m : Parsed A) (f : A → Parsed B) → Ends m → ((a : A) → Ensures P (f a)) → Ensures P (m >>= f)
  Ensures-bind_end m f e h = Ensures-bind (λ _. Unit {0}) m f e (λ a _. h a)

module _ {B : Type 0} {P : B → Type 0} where
  pub Ensures-return_if :
      (b : Bool) (message : String) (n : Parsed B)
      → (b ≡ false → Ensures P n)
      → Ensures P (return_if b message >> n)
  Ensures-return_if true message n h = returned _
  Ensures-return_if false message n h = h refl

pub Ends-lift : {A : Type 0} (t : Thrown A) → Ends (lift t)
Ends-lift (answers a) = ensured a tt
Ends-lift (raises e) = thrown e

pub Ends-gives : {A : Type 0} (a : A) → Ends (gives a)
Ends-gives a = ensured a tt

pub Ends-of : {A : Type 0} {P : A → Type 0} (m : Parsed A) → Ensures P m → Ends m
Ends-of _ (ensured a p) = ensured a tt
Ends-of _ (returned s) = returned s
Ends-of _ (thrown e) = thrown e
Ends-of _ (escaped e) = escaped e

module _ (y : Yaml) where
  pub Ends-or_default :
      {A : Type 0} (n : y.Node) (key : String) (convert : y.Node → Parsed A) (a : A)
      → ((m : y.Node) → Ends (convert m))
      → Ends (or_default y n key convert a)
  Ends-or_default n key convert a h =
      Ensures-bind_end (field y n key) _ (Ends-lift (y.lookup n key)) (λ o. by_found o)
    where
      by_found : (o : Option y.Node) → Ends (elim o [ none ↦ gives a | some m ↦ convert m ])
      by_found none = ensured a tt
      by_found (some m) = h m
