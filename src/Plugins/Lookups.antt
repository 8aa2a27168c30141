-- ===== src/Plugins/Lookups.antt =====
-- What a registry finds after types are registered and unregistered, of src/core/plugin.cpp.
use rk_avp.Prelude.{
  ◌≡◌, refl, false, ◌&&◌, not, List, [], ◌∷◌, filter, Option, none, some, String, if◌then◌else◌,
  ◌=?◌, string_keys, arith, eq_iff, Option-cases, inl, inr,
}
use rk_avp.Prelude.Maps.{find, contains, emplace, find-erase, find-assign}
use rk_avp.Prelude.Names.{member}
use rk_avp.Graph.Validation.{names_of}
use rk_avp.Registry.{register, unregister}
use rk_avp.Plugins.{difference, run_init, unregister_each, new_types}

pub member-difference :
    (t : String) (xs ys : List String)
    → member t (difference xs ys) ≡ (member t xs && not (member t ys))
unfolding member filter
member-difference t [] ys = refl
member-difference t (x ∷ xs) ys = ground (arith, member-difference t xs ys, eq_iff x t)

module _ {F : Type 0} where
  pub member-names_of : (t : String) (m : List (String × F)) → member t (names_of m) ≡ contains t m
  unfolding member contains find
  member-names_of t [] = refl
  member-names_of t ((k, f) ∷ m) = ground (arith, member-names_of t m)

  find-unregister :
      (t type : String) (m : List (String × F))
      → find t (unregister m type).0 ≡ (if type =? t then none else find t m)
  unfolding unregister contains
  find-unregister t type m = ground (arith, find-erase type t m, eq_iff type t)

  pub find-unregister_each :
      (t : String) (types : List String) (m : List (String × F))
      → find t (unregister_each types m) ≡ (if member t types then none else find t m)
  unfolding unregister_each member
  find-unregister_each t [] m = refl
  find-unregister_each t (type ∷ types) m =
      ground (arith, find-unregister_each t types (unregister m type).0, find-unregister t type m)

  find-register :
      (t type : String) (factory : Option F) (m : List (String × F)) (f : F)
      → find t m ≡ some f
      → find t (register m type factory).0 ≡ some f
  unfolding register contains emplace
  find-register t type none m f h = h
  find-register t type (some g) m f h = ground (arith, h, find-assign type t g m, eq_iff type t)

  find-run_init :
      (t : String) (more : List (String × Option F)) (m : List (String × F)) (f : F)
      → find t m ≡ some f
      → find t (run_init more m) ≡ some f
  unfolding run_init
  find-run_init t [] m f h = h
  find-run_init t ((type, factory) ∷ more) m f h =
      find-run_init t more (register m type factory).0 f (find-register t type factory m f h)

  -- What a library does not add it does not touch.
  pub find-kept :
      (t : String) (more : List (String × Option F)) (m : List (String × F))
      → member t (new_types m (run_init more m)) ≡ false
      → find t (run_init more m) ≡ find t m
  unfolding contains
  find-kept t more m h = elim (Option-cases (find t m)) [
    | inl f ↦ ground (
      arith,
      h,
      f,
      member-difference t (names_of (run_init more m)) (names_of m),
      member-names_of t (run_init more m),
      member-names_of t m,
    )
    | inr (g, f) ↦ rw f (find-run_init t more m g f)
  ]
