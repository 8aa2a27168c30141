-- ===== src/Plugins/Restores.antt =====
-- The node types that are registered over any sequence of loads and unloads, of src/core/plugin.cpp.
use rk_avp.Prelude.{
  ℕ, zero, suc, ◌≡◌, refl, true, false, not, List, [], ◌∷◌, any, Option, none, some, String, ◌=?◌,
  string_keys, length, arith, if_lem, Option-cases, Bool-cases, inl, inr, ◌∙◌,
}
use rk_avp.Prelude.Maps.{find, contains}
use rk_avp.Prelude.Names.{member}
use rk_avp.Status.{Status}
use rk_avp.Graph.Validation.{names_of}
use rk_avp.Registry.{create}
use rk_avp.Plugins.{
  Library, Plugin, PluginManager, run_init, unregister_each, new_types, initialised, opened, load,
  take_plugin, last_path, unload_found, unload, unload_last, unload_all,
}
use rk_avp.Plugins.Lookups.{member-difference, member-names_of, find-unregister_each, find-kept}
use rk_avp.Plugins.Taken.{Taken, owned, member-owned_snoc, take_plugin-Taken, unload_last_empties}

module _ {F : Type 0} where
  -- The registry is the first one, save for the types of the plugins, which that does not have.
  unfoldable Restorable : List (String × F) → PluginManager F → Type 0
  Restorable first m =
      ((t : String) → member t (owned m.plugins) ≡ false → find t m.registry ≡ find t first)
      × ((t : String) → member t (owned m.plugins) ≡ true → find t first ≡ none)

  unregister_new :
      (t : String) (more : List (String × Option F)) (m : List (String × F))
      → find t (unregister_each (new_types m (run_init more m)) (run_init more m)) ≡ find t m
  unfolding contains
  unregister_new t more m = elim (Bool-cases (member t (new_types m (run_init more m)))) [
    | inl new ↦ ground (
      arith,
      new,
      find-unregister_each t (new_types m (run_init more m)) (run_init more m),
      member-difference t (names_of (run_init more m)) (names_of m),
      member-names_of t m,
    )
    | inr old ↦ ground (
      arith,
      old,
      find-unregister_each t (new_types m (run_init more m)) (run_init more m),
      find-kept t more m old,
    )
  ]

  initialised-Restorable :
      (first : List (String × F)) (m : PluginManager F) (path : String) (library : Library F)
      → Restorable first m
      → Restorable first (initialised m path library (run_init library.registers m.registry)).0
  unfolding Restorable contains
  initialised-Restorable first m path library (h, held) =
      let more = library.registers in
      let new = new_types m.registry (run_init more m.registry) in
      if_lem (λ (x : PluginManager F × Status). Restorable first x.0) (not library.succeeds)
        (λ x. ((λ t a. unregister_new t more m.registry ∙ h t a), held))
        (λ x. (
          (λ t a. ground (
            arith,
            a,
            member-owned_snoc t m.plugins (record { path = path; registered_types = new }),
            h t,
            find-kept t more m.registry,
          )),
          (λ t a. ground (
            arith,
            a,
            member-owned_snoc t m.plugins (record { path = path; registered_types = new }),
            h t,
            held t,
            member-difference t (names_of (run_init more m.registry)) (names_of m.registry),
            member-names_of t m.registry,
          )),
        ))

  load-Restorable :
      (first : List (String × F)) (m : PluginManager F) (path : String)
      (library : Option (Library F)) (dl_error : String)
      → Restorable first m
      → Restorable first (load m path library dl_error).0
  unfolding load
  load-Restorable first m path library dl_error h =
      if_lem Goes (path =? "") (λ x. h)
        (λ x.
          if_lem Goes (any (λ (p : Plugin). p.path =? path) m.plugins) (λ y. h) (λ y. go library))
    where
      Goes : PluginManager F × Status → Type 0
      Goes x = Restorable first x.0

      go : (o : Option (Library F)) → Restorable first (opened m path o dl_error).0
      go none = h
      go (some l) =
          if_lem Goes (not l.has_init) (λ x. h) (λ x. initialised-Restorable first m path l h)

  unload_found-Restorable :
      (first : List (String × F)) (m : PluginManager F) (path : String) (x : Plugin × List Plugin)
      → Taken m.plugins x
      → Restorable first m
      → Restorable first (unload_found m path (some x)).0
  unfolding Restorable Taken
  unload_found-Restorable first m path x (taken, fewer) (h, held) = (
    (λ t a.
        ground
          (arith, a, taken t, h t, held t, find-unregister_each t x.0.registered_types m.registry)),
    (λ t a. ground (arith, a, taken t, held t)),
  )

  unload-Restorable :
      (first : List (String × F)) (m : PluginManager F) (path : String)
      → Restorable first m
      → Restorable first (unload m path).0
  unfolding unload
  unload-Restorable first m path h = elim (Option-cases (take_plugin path m.plugins)) [
    | inl f ↦ rw f h
    | inr (x, f) ↦
        rw f (unload_found-Restorable first m path x (take_plugin-Taken path m.plugins x f) h)
  ]

  unload_last-Restorable :
      (first : List (String × F)) (n : ℕ) (m : PluginManager F)
      → Restorable first m
      → Restorable first (unload_last n m)
  unfolding unload_last
  unload_last-Restorable first zero m h = h
  unload_last-Restorable first (suc n) m h =
      unload_last-Restorable first n (unload m (last_path m.plugins)).0
        (unload-Restorable first m (last_path m.plugins) h)

pub data Request (F : Type 0) : Type 0 where
  loads : String → Option (Library F) → String → Request F
  unloads : String → Request F

module _ {F : Type 0} where
  unfoldable pub manage : PluginManager F → List (Request F) → PluginManager F
  manage m [] = m
  manage m (loads path library dl_error ∷ rs) = manage (load m path library dl_error).0 rs
  manage m (unloads path ∷ rs) = manage (unload m path).0 rs

  manage-Restorable :
      (first : List (String × F)) (m : PluginManager F) (rs : List (Request F))
      → Restorable first m
      → Restorable first (manage m rs)
  unfolding manage
  manage-Restorable first m [] h = h
  manage-Restorable first m (loads path library dl_error ∷ rs) h =
      manage-Restorable first (load m path library dl_error).0 rs
        (load-Restorable first m path library dl_error h)
  manage-Restorable first m (unloads path ∷ rs) h =
      manage-Restorable first (unload m path).0 rs (unload-Restorable first m path h)

  none-Restorable :
      (first : List (String × F)) → Restorable first (record { registry = first; plugins = [] })
  unfolding Restorable owned member
  none-Restorable first = ((λ t a. refl), (λ t a. absurd (cc)))

  -- Whatever plugins have been loaded and unloaded, and whichever failed, `UnloadAll` leaves no
  -- plugin, and the registry creates what it created before the first.
  pub unload_all_restores :
      (first : List (String × F)) (rs : List (Request F)) (t : String)
      → let m = unload_all (manage (record { registry = first; plugins = [] }) rs) in
        (m.plugins ≡ []) × (create m.registry t ≡ create first t)
  unfolding unload_all Restorable create owned member
  unload_all_restores first rs t =
      let m = manage (record { registry = first; plugins = [] }) rs in
      let empty = unload_last_empties (length m.plugins) m refl in
      let last =
        unload_last-Restorable first (length m.plugins) m
          (manage-Restorable first _ rs (none-Restorable first)) in
      (empty, last.0 t (rw empty refl))
