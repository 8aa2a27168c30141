-- ===== src/Graph/Loader/Endpoints.antt =====
-- `SplitEndpoint` of src/core/graph_config.cpp, both ways.
use Prim.Native.String.{String, ◌++◌}
use rk_avp.Prelude.{
  ◌≡◌, ap, subst, ◌∙◌, ◌↔◌, false, some, string_keys, arith, Option-cases, inl, inr,
}
use rk_avp.Prelude.Texts.{has_char, split_last, split_last-append, split_last-eq}
use rk_avp.Graph.Loader.{gives, dot, split_endpoint, endpoint_of}
use rk_avp.Graph.Loader.Wellformed.{IsText}

-- A node and a port with a dot between; the port has none.
abbrev pub IsSplit : String → String → String → Type 0
IsSplit endpoint node port =
    (endpoint ≡ node ++ String.◌∷◌ dot port)
    × (has_char dot port ≡ false)
    × IsText node
    × IsText port

of_IsSplit :
    (e a b node port : String)
    → split_last dot e ≡ some (a, b)
    → endpoint_of e (some (a, b)) ≡ gives (node, port)
    → IsSplit e node port
of_IsSplit e a b node port s h =
    let (eq, free) = split_last-eq dot e a b s in
    let ea : a ≡ node = ground arith in
    let eb : b ≡ port = ground arith in
    let ta : IsText a = ground arith in
    let tb : IsText b = ground arith in
    (
      eq ∙ ap (λ x. x ++ String.◌∷◌ dot b) ea ∙ ap (λ x. node ++ String.◌∷◌ dot x) eb,
      subst (λ x. has_char dot x ≡ false) eb free,
      subst IsText ea ta,
      subst IsText eb tb,
    )

-- An endpoint splits into a node and a port exactly when it is the two with a dot between, neither
-- is empty, and the port has no dot.
pub split_endpoint_lem :
    (e node port : String) → (split_endpoint e ≡ gives (node, port)) ↔ IsSplit e node port
unfolding split_endpoint
split_endpoint_lem e node port = (forth, back)
  where
    forth : endpoint_of e (split_last dot e) ≡ gives (node, port) → IsSplit e node port
    forth h = elim (Option-cases (split_last dot e)) [
      | inl n ↦ absurd (ground arith)
      | inr (p, s) ↦ of_IsSplit e p.0 p.1 node port s (ground arith)
    ]

    back : IsSplit e node port → endpoint_of e (split_last dot e) ≡ gives (node, port)
    back (eq, free, tn, tp) =
        ap (endpoint_of e) (ap (split_last dot) eq ∙ split_last-append dot node port free)
        ∙ ground arith
