-- ===== src/Plugins.antt =====
-- `PluginManager` of src/core/plugin.cpp. The dynamic linker is an argument, with what the entry point
-- of each library registers and whether it succeeds; `Unregister` only says what it could not find.
pub mod Lookups
pub mod Taken
pub mod Restores
use rk_avp.Prelude.{
  ℕ, zero, suc, Bool, true, false, not, List, [], ◌∷◌, ◌++◌, filter, any, Option, none, some,
  String, if◌then◌else◌, ◌=?◌, string_keys, length,
}
use rk_avp.Prelude.Names.{member}
use rk_avp.Status.{Status, ◌+s◌}
use rk_avp.Status
use rk_avp.Graph.Validation.{names_of}
use rk_avp.Registry.{register, unregister}

-- A library that `dlopen` has opened: whether it has the entry point of this version, what that
-- registers, and whether it returns 0.
pub record Library (F : Type 0) : Type 0 where
  pub has_init : Bool
  pub registers : List (String × Option F)
  pub succeeds : Bool

pub record Plugin : Type 0 where
  pub path : String
  pub registered_types : List String

pub record PluginManager (F : Type 0) : Type 0 where
  pub registry : List (String × F)
  pub plugins : List Plugin

-- `set_difference`.
abbrev pub difference : List String → List String → List String
difference xs ys = filter (λ x. not (member x ys)) xs

module _ {F : Type 0} where
  -- `init(registry_)`.
  unfoldable pub run_init : List (String × Option F) → List (String × F) → List (String × F)
  run_init [] registry = registry
  run_init ((type, factory) ∷ more) registry = run_init more (register registry type factory).0

  unfoldable pub unregister_each : List String → List (String × F) → List (String × F)
  unregister_each [] registry = registry
  unregister_each (type ∷ types) registry = unregister_each types (unregister registry type).0

  -- `after` without `before`.
  abbrev pub new_types : List (String × F) → List (String × F) → List String
  new_types before after = difference (names_of after) (names_of before)

  abbrev pub initialised :
      PluginManager F → String → Library F → List (String × F) → PluginManager F × Status
  initialised m path library after =
      if not library.succeeds
      then (
        record m { registry = unregister_each (new_types m.registry after) after },
        Status.internal ("plugin initialization failed: " +s path),
      )
      else (
        record m {
          registry = after;
          plugins =
              m.plugins
              ++ record { path = path; registered_types = new_types m.registry after } ∷ [];
        },
        Status.ok,
      )

  -- `none` is a `dlopen` that failed.
  abbrev pub opened :
      PluginManager F → String → Option (Library F) → String → PluginManager F × Status
  opened m path none dl_error = (m, Status.unavailable ("dlopen failed: " +s dl_error))
  opened m path (some library) dl_error =
      if not library.has_init
      then (m, Status.invalid ("incompatible plugin API; expected rkavp_plugin_init_v2: " +s path))
      else initialised m path library (run_init library.registers m.registry)

  unfoldable pub load :
      PluginManager F → String → Option (Library F) → String → PluginManager F × Status
  unfolding run_init unregister_each
  load m path library dl_error =
      if path =? ""
      then (m, Status.invalid "plugin registry and path are required")
      else if any (λ (p : Plugin). p.path =? path) m.plugins
      then (m, Status.already_exists ("plugin is already loaded: " +s path))
      else opened m path library dl_error

-- The first plugin of that path, and the others.
unfoldable pub take_plugin : String → List Plugin → Option (Plugin × List Plugin)
take_plugin path [] = none
take_plugin path (p ∷ ps) =
    let later = take_plugin path ps in
    if p.path =? path
    then some (p, ps)
    else elim later [ none ↦ none | some (q, others) ↦ some (q, p ∷ others) ]

-- `back()`, where there is one.
abbrev pub last_path : List Plugin → String
last_path [] = ""
last_path (p ∷ []) = p.path
last_path (p ∷ q ∷ ps) = last_path (q ∷ ps)

module _ {F : Type 0} where
  abbrev pub unload_found :
      PluginManager F → String → Option (Plugin × List Plugin) → PluginManager F × Status
  unload_found m path none = (m, Status.not_found ("plugin is not loaded: " +s path))
  unload_found m path (some (p, others)) = (
    record { registry = unregister_each p.registered_types m.registry; plugins = others },
    Status.ok,
  )

  unfoldable pub unload : PluginManager F → String → PluginManager F × Status
  unfolding unregister_each take_plugin
  unload m path = unload_found m path (take_plugin path m.plugins)

  -- The loop of `UnloadAll`, for so many plugins.
  unfoldable pub unload_last : ℕ → PluginManager F → PluginManager F
  unfolding unload
  unload_last zero m = m
  unload_last (suc n) m = unload_last n (unload m (last_path m.plugins)).0

  unfoldable pub unload_all : PluginManager F → PluginManager F
  unfolding unload_last
  unload_all m = unload_last (length m.plugins) m
