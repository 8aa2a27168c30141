-- ===== src/Plugins/Taken.antt =====
-- Taking a plugin from the loaded ones, of src/core/plugin.cpp.
use rk_avp.Prelude.{
  ℕ, zero, suc, ◌≡◌, refl, true, ◌||◌, List, [], ◌∷◌, ◌++◌, some, String, ◌=?◌, string_keys, length,
  arith, eq_iff, Option-cases, Bool-cases, inl, inr,
}
use rk_avp.Prelude.Maps.{is_some}
use rk_avp.Prelude.Names.{member, member-append}
use rk_avp.Plugins.{Plugin, PluginManager, take_plugin, last_path, unload, unload_last}

-- The types that the plugins have registered.
unfoldable pub owned : List Plugin → List String
owned [] = []
owned (p ∷ ps) = p.registered_types ++ owned ps

pub member-owned_snoc :
    (t : String) (ps : List Plugin) (p : Plugin)
    → member t (owned (ps ++ p ∷ [])) ≡ (member t (owned ps) || member t p.registered_types)
unfolding owned member
member-owned_snoc t [] p = ground (arith, member-append t p.registered_types [])
member-owned_snoc t (q ∷ ps) p = ground (
  arith,
  member-append t q.registered_types (owned (ps ++ p ∷ [])),
  member-append t q.registered_types (owned ps),
  member-owned_snoc t ps p,
)

-- Taking a plugin away takes its types.
unfoldable pub Taken : List Plugin → Plugin × List Plugin → Type 0
Taken ps x =
    ((t : String) → member t (owned ps) ≡ (member t x.0.registered_types || member t (owned x.1)))
    × (length ps ≡ suc (length x.1))

pub take_plugin-Taken :
    (path : String) (ps : List Plugin) (x : Plugin × List Plugin)
    → take_plugin path ps ≡ some x
    → Taken ps x
unfolding take_plugin owned member Taken
take_plugin-Taken path [] x h = absurd (cc)
take_plugin-Taken path (p ∷ ps) x h = elim (Bool-cases (p.path =? path)) [
  | inl e ↦ (
    (λ t. ground (arith, h, e, member-append t p.registered_types (owned ps))),
    ground (arith, h, e),
  )
  | inr e ↦ elim (Option-cases (take_plugin path ps)) [
    | inl f ↦ absurd (ground (arith, h, e, f))
    | inr (y, f) ↦
        let taken = take_plugin-Taken path ps y f in
        (
          (λ t. ground (
            arith,
            h,
            e,
            f,
            taken.0 t,
            member-append t p.registered_types (owned ps),
            member-append t p.registered_types (owned y.1),
          )),
          ground (arith, h, e, f, taken.1),
        )
  ]
]

no_plugins : (ps : List Plugin) → length ps ≡ 0 → ps ≡ []
no_plugins [] h = refl
no_plugins (p ∷ ps) h = absurd (omega (arith, h))

-- The last plugin is found.
take_last :
    (p : Plugin) (ps : List Plugin) → is_some (take_plugin (last_path (p ∷ ps)) (p ∷ ps)) ≡ true
unfolding take_plugin
take_last p [] = ground (arith, eq_iff p.path p.path)
take_last p (q ∷ ps) = ground (arith, take_last q ps)

module _ {F : Type 0} where
  length-unload :
      (registry : List (String × F)) (ps : List Plugin) (n : ℕ)
      → length ps ≡ suc n
      → length (unload (record { registry = registry; plugins = ps }) (last_path ps)).0.plugins ≡ n
  unfolding unload Taken
  length-unload registry [] n h = absurd (omega (arith, h))
  length-unload registry (p ∷ ps) n h =
      elim (Option-cases (take_plugin (last_path (p ∷ ps)) (p ∷ ps))) [
        | inl f ↦ absurd (ground (arith, f, take_last p ps))
        | inr (x, f) ↦
            rw f (omega (arith, h, (take_plugin-Taken (last_path (p ∷ ps)) (p ∷ ps) x f).1))
      ]

  pub unload_last_empties :
      (n : ℕ) (m : PluginManager F) → length m.plugins ≡ n → (unload_last n m).plugins ≡ []
  unfolding unload_last
  unload_last_empties zero m h = no_plugins m.plugins h
  unload_last_empties (suc n) m h =
      unload_last_empties n (unload m (last_path m.plugins)).0
        (length-unload m.registry m.plugins n h)
