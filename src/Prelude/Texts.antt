-- ===== src/Prelude/Texts.antt =====
-- Texts taken apart: a prefix, and the last separator of `rfind` and `substr`.
use Prim.Native.Char.{Char, code}
use Prim.Native.String.append
use Prim.Native.String.{String, ◌++◌}
use text.Mathlib.TextEquality.{Char-path}
use mathlib.Core.Path.{◌≡◌, refl, sym, ap, ◌∙◌}
use mathlib.Core.Logic.{inl, inr}
use mathlib.Core.Bool.{Bool, false, ◌||◌}
use mathlib.Core.Option.{Option, none, some}
use native.Mathlib.Omega.{arith}
use rk_avp.Prelude.Tests.{◌==◌, if◌then◌else◌, Option-cases}

-- What follows a prefix; `none` where `rfind(prefix, 0) != 0`.
unfoldable pub after_prefix : String → String → Option String
after_prefix String.[] s = some s
after_prefix (String.◌∷◌ c p) String.[] = none
after_prefix (String.◌∷◌ c p) (String.◌∷◌ d s) =
    let later = after_prefix p s in if code c == code d then later else none

unfoldable pub has_char : Char → String → Bool
has_char c String.[] = false
has_char c (String.◌∷◌ d s) = code d == code c || has_char c s

abbrev cons_left : Char → Option (String × String) → Option (String × String)
cons_left c none = none
cons_left c (some (a, b)) = some (String.◌∷◌ c a, b)

-- The texts before and after the last `c`; `none` where `rfind(c)` finds none.
unfoldable pub split_last : Char → String → Option (String × String)
split_last c String.[] = none
split_last c (String.◌∷◌ d s) = elim (split_last c s) [
  | none ↦ if code d == code c then some (String.[], s) else none
  | some (a, b) ↦ some (String.◌∷◌ d a, b)
]

pub after_prefix-append : (p s : String) → after_prefix p (p ++ s) ≡ some s
unfolding after_prefix
after_prefix-append String.[] s = ap (after_prefix String.[]) (append.nil s)
after_prefix-append (String.◌∷◌ c p) s =
    ap (after_prefix (String.◌∷◌ c p)) (append.cons c p s) ∙ ground (arith, after_prefix-append p s)

pub after_prefix-eq : (p s r : String) → after_prefix p s ≡ some r → s ≡ p ++ r
unfolding after_prefix
after_prefix-eq String.[] s r h = let e : s ≡ r = cc in e ∙ sym (append.nil r)
after_prefix-eq (String.◌∷◌ c p) String.[] r h = absurd (cc)
after_prefix-eq (String.◌∷◌ c p) (String.◌∷◌ d s) r h =
    let same : code c ≡ code d = ground arith in
    let later : after_prefix p s ≡ some r = ground arith in
    ap (λ e. String.◌∷◌ e s) (sym (Char-path c d same))
    ∙ ap (String.◌∷◌ c) (after_prefix-eq p s r later)
    ∙ sym (append.cons c p r)

pub has_char-append :
    (c : Char) (a b : String) → has_char c (a ++ b) ≡ (has_char c a || has_char c b)
unfolding has_char
has_char-append c String.[] b = ap (has_char c) (append.nil b)
has_char-append c (String.◌∷◌ d a) b =
    ap (has_char c) (append.cons d a b) ∙ ground (arith, has_char-append c a b)

split_last-none : (c : Char) (s : String) → has_char c s ≡ false → split_last c s ≡ none
unfolding split_last has_char
split_last-none c String.[] h = refl
split_last-none c (String.◌∷◌ d s) h = ground (arith, split_last-none c s)

none-split_last : (c : Char) (s : String) → split_last c s ≡ none → has_char c s ≡ false
unfolding split_last has_char
none-split_last c String.[] h = refl
none-split_last c (String.◌∷◌ d s) h = ground (arith, none-split_last c s)

pub split_last-append :
    (c : Char) (a b : String)
    → has_char c b ≡ false
    → split_last c (a ++ String.◌∷◌ c b) ≡ some (a, b)
unfolding split_last has_char
split_last-append c String.[] b h =
    ap (split_last c) (append.nil (String.◌∷◌ c b)) ∙ ground (arith, split_last-none c b h)
split_last-append c (String.◌∷◌ d a) b h =
    ap (split_last c) (append.cons d a (String.◌∷◌ c b)) ∙ ground (arith, split_last-append c a b h)

at_first :
    (c d : Char) (s a b : String)
    → code d ≡ code c
    → a ≡ String.[]
    → b ≡ s
    → has_char c s ≡ false
    → (String.◌∷◌ d s ≡ a ++ String.◌∷◌ c b) × (has_char c b ≡ false)
at_first c d s a b e ea eb n = (
  ap (λ x. String.◌∷◌ x s) (Char-path d c e)
      ∙ ap (String.◌∷◌ c) (sym eb)
      ∙ sym (append.nil (String.◌∷◌ c b))
      ∙ ap (λ x. x ++ String.◌∷◌ c b) (sym ea),
  ap (has_char c) eb ∙ n,
)

after_first :
    (c d : Char) (s p q a b : String)
    → (s ≡ p ++ String.◌∷◌ c q) × (has_char c q ≡ false)
    → a ≡ String.◌∷◌ d p
    → b ≡ q
    → (String.◌∷◌ d s ≡ a ++ String.◌∷◌ c b) × (has_char c b ≡ false)
after_first c d s p q a b (e, n) ea eb = (
  ap (String.◌∷◌ d) e
      ∙ sym (append.cons d p (String.◌∷◌ c q))
      ∙ ap (λ x. x ++ String.◌∷◌ c q) (sym ea)
      ∙ ap (λ x. a ++ String.◌∷◌ c x) (sym eb),
  ap (has_char c) eb ∙ n,
)

pub split_last-eq :
    (c : Char) (s a b : String)
    → split_last c s ≡ some (a, b)
    → (s ≡ a ++ String.◌∷◌ c b) × (has_char c b ≡ false)
unfolding split_last has_char
split_last-eq c String.[] a b h = absurd (cc)
split_last-eq c (String.◌∷◌ d s) a b h = elim (Option-cases (split_last c s)) [
  | inl e ↦ at_first c d s a b (ground arith) (ground arith) (ground arith) (none-split_last c s e)
  | inr (p, e) ↦
      after_first c d s p.0 p.1 a b (split_last-eq c s p.0 p.1 e) (ground arith) (ground arith)
]
