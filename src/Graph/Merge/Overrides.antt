-- ===== src/Graph/Merge/Overrides.antt =====
-- The options of a node after overrides, and the nodes and edges of a merged graph.
use rk_avp.Prelude.{
  ℕ, zero, suc, ◌+◌, List, ◌++◌, map, length, get_elem?, arith, ◌≡◌, refl, ap, sym, ◌∙◌, Bool, true,
  false, [], ◌∷◌, Option, none, some, String, if◌then◌else◌, Bool-cases, inl, inr, ◌=?◌, eq_iff,
  string_keys,
}
use rk_avp.Prelude.Maps.{find, find-assign, or_else}
use rk_avp.Prelude.Texts.{after_prefix, after_prefix-append, after_prefix-eq}
use text.Mathlib.TextLemmas.{append_cancel_left}
use rk_avp.Status.{pass, ◌+s◌}
use rk_avp.ConfigValue.{ConfigValue, Object}
use rk_avp.Graph.{GraphConfig, NodeConfig}
use rk_avp.Graph.Merge.{override_by, override_options, merge_node, merge_subgraph}

pub if_or_else :
    (b : Bool) (v : ConfigValue) (o : Option ConfigValue)
    → (if b then some v else o) ≡ or_else (if b then some v else none) o
if_or_else true v o = refl
if_or_else false v o = refl

pub or_else_assoc : (a b c : Option ConfigValue) → or_else a (or_else b c) ≡ or_else (or_else a b) c
or_else_assoc none b c = refl
or_else_assoc (some v) b c = refl

-- The last value that a name has in the overrides.
abbrev pub last_of : String → Object → Option ConfigValue
last_of name [] = none
last_of name ((n, v) ∷ os) = or_else (last_of name os) (if n =? name then some v else none)

pub override_none :
    (p key name : String) → after_prefix p name ≡ none → (name =? (p +s key)) ≡ false
override_none p key name h = elim (Bool-cases (name =? (p +s key))) [
  | inl e ↦
      let same : name ≡ p +s key = (eq_iff name (p +s key)).0 e in
      let found = ap (after_prefix p) same ∙ after_prefix-append p key in absurd (cc)
  | inr n ↦ n
]

pub override_some :
    (p key name k : String) → after_prefix p name ≡ some k → (name =? (p +s key)) ≡ (k =? key)
override_some p key name k h =
    let same : name ≡ p +s k = after_prefix-eq p name k h in
    elim (Bool-cases (k =? key)) [
      | inl e ↦
          let at : k ≡ key = (eq_iff k key).0 e in
          (eq_iff name (p +s key)).1 (same ∙ ap (λ x. p +s x) at) ∙ sym e
      | inr n ↦ elim (Bool-cases (name =? (p +s key))) [
        | inl e ↦
            let both : p +s k ≡ p +s key = sym same ∙ (eq_iff name (p +s key)).0 e in
            let at = append_cancel_left p k key both in e ∙ sym ((eq_iff k key).1 at)
        | inr m ↦ m ∙ sym n
      ]
    ]

override_by_lem :
    (p key name : String) (o : Option String) (v : ConfigValue) (options : Object)
    → after_prefix p name ≡ o
    → find key (override_by o v options)
      ≡ or_else (if name =? (p +s key) then some v else none) (find key options)
override_by_lem p key name none v options h =
    ap (λ b. or_else (if b then some v else none) (find key options))
      (sym (override_none p key name h))
override_by_lem p key name (some k) v options h =
    find-assign k key v options
    ∙ if_or_else (k =? key) v (find key options)
    ∙ ap (λ b. or_else (if b then some v else none) (find key options))
        (sym (override_some p key name k h))

override_options_lem :
    (id key : String) (overrides options : Object)
    → find key (override_options id overrides options)
      ≡ or_else (last_of ((id +s ".") +s key) overrides) (find key options)
unfolding override_options
override_options_lem id key [] options = refl
override_options_lem id key ((name, v) ∷ overrides) options =
    override_options_lem id key overrides (override_by (after_prefix (id +s ".") name) v options)
    ∙ ap (or_else (last_of ((id +s ".") +s key) overrides))
        (override_by_lem (id +s ".") key name (after_prefix (id +s ".") name) v options refl)
    ∙ or_else_assoc (last_of ((id +s ".") +s key) overrides) _ (find key options)

-- An object is a hash map: no name is there twice.
abbrev pub AreDistinct : Object → Type 0
AreDistinct [] = Unit {0}
AreDistinct ((n, v) ∷ os) = (find n os ≡ none) × AreDistinct os

-- Where no name is there twice, the order of the overrides does not matter.
pub last_of-find : (name : String) (os : Object) → AreDistinct os → last_of name os ≡ find name os
unfolding find
last_of-find name [] h = refl
last_of-find name ((n, v) ∷ os) h = ground (arith, last_of-find name os h.1, h.0, eq_iff n name)

get_elem?-after {ℓ} :
    {A : Type ℓ} (xs ys : List A) (i : ℕ) → get_elem? (xs ++ ys) (length xs + i) ≡ get_elem? ys i
get_elem?-after [] ys i = ap (get_elem? ys) (omega arith)
get_elem?-after (x ∷ xs) ys i =
    let step : suc (length xs) + i ≡ suc (length xs + i) = omega arith in
    rw step (get_elem?-after xs ys i)

pub get_elem?-map {ℓ κ} :
    {A : Type ℓ} {B : Type κ} (f : A → B) (xs : List A) (i : ℕ) (x : A)
    → get_elem? xs i ≡ some x
    → get_elem? (map f xs) i ≡ some (f x)
get_elem?-map f [] i x h = absurd (cc)
get_elem?-map f (y ∷ ys) zero x h = ground (arith, h)
get_elem?-map f (y ∷ ys) (suc i) x h = get_elem?-map f ys i x h

merged_nodes :
    (parent child merged : GraphConfig) (prefix : String) (overrides : Object)
    → merge_subgraph parent child prefix overrides ≡ pass merged
    → merged.nodes ≡ parent.nodes ++ map (merge_node prefix overrides) child.nodes
unfolding merge_subgraph
merged_nodes parent child merged prefix overrides h = ground (arith, h)

-- A node of a child graph stands in the merged graph after the parent's nodes, in its place, under
-- the prefix, with its own type and executor; an option of it has the value of the override that is
-- named by the node and the option, or else its own.
pub merge_subgraph_lem :
    (parent child merged : GraphConfig) (prefix : String) (overrides : Object) (i : ℕ)
    (n : NodeConfig)
    → AreDistinct overrides
    → merge_subgraph parent child prefix overrides ≡ pass merged
    → get_elem? child.nodes i ≡ some n
    → (m : NodeConfig) × (get_elem? merged.nodes (length parent.nodes + i) ≡ some m)
      × (m.id ≡ prefix +s "." +s n.id)
      × (m.type ≡ n.type)
      × (m.executor ≡ n.executor)
      × ((key : String)
          → find key m.options
            ≡ or_else (find ((n.id +s ".") +s key) overrides) (find key n.options))
merge_subgraph_lem parent child merged prefix overrides i n distinct h at =
    let whole = merged_nodes parent child merged prefix overrides h in
    let mapped = get_elem?-map (merge_node prefix overrides) child.nodes i n at in
    (
      merge_node prefix overrides n,
      ap (λ ns. get_elem? ns (length parent.nodes + i)) whole
          ∙ get_elem?-after parent.nodes (map (merge_node prefix overrides) child.nodes) i
          ∙ mapped,
      refl,
      refl,
      refl,
      λ key.
          override_options_lem n.id key overrides n.options
          ∙ ap (λ o. or_else o (find key n.options))
              (last_of-find ((n.id +s ".") +s key) overrides distinct),
    )
