-- ===== src/Modules/Registration.antt =====
-- cpp/mrc/src/public/modules/module_registry.cpp: what registering and unregistering do to the lookups.
use Prim.Native.String.{String}
use text.Mathlib.Text.{◌==◌ as str_eq}
use text.Mathlib.TextEquality.{eq_iff}
use mrc.Prelude.{
  ℕ, ◌≡◌, refl, Bool, false, ◌&&◌, none, some, List, [], ◌∷◌, ◌++◌, if◌then◌else◌, arith,
}
use mrc.Modules.{
  find, put, remove, Sorting, Registry, done, incompatible, invalid, is_version_compatible,
  contains_namespace, get_module_constructor, contains, modules_of, names_of, ensure_namespace,
  add_module, register_module, drop_empty, unregister_module, erase_name,
}
use mrc.Modules.TextMaps.{find-put, find-remove, find-is_empty}
use mrc.Modules.Consistency.{constructor-put, constructor-modules_of}

module _ {V : Type 0} where
  find-empty : (k : String) → find {V = V} k [] ≡ none
  unfolding find
  find-empty k = refl

  ensure-get :
      (k j ns : String) (r : Registry V)
      → get_module_constructor k j (ensure_namespace ns r) ≡ get_module_constructor k j r
  unfolding ensure_namespace contains_namespace get_module_constructor
  ensure-get k j ns r =
      ground (arith, find-put j ns [] r.module_namespace_registry, eq_iff ns j, find-empty k)

  add-get :
      (std : Sorting) (k j name ns : String) (f : V) (r : Registry V)
      → get_module_constructor k j (add_module std name ns f r)
        ≡ (if str_eq ns j && str_eq name k then some f else get_module_constructor k j r)
  unfolding add_module
  add-get std k j name ns f r = ground (
    arith,
    constructor-put j ns k (put name f (modules_of ns r))
        (put ns (std.sort (names_of ns r ++ (name ∷ []))) r.module_name_map) r,
    find-put k name f (modules_of ns r),
    constructor-modules_of ns k r,
    eq_iff ns j,
  )

  -- register_module refuses an incompatible version and a name that the namespace already has, and
  -- else succeeds. Where it succeeds the name gives the new constructor; every other name, and after a
  -- refusal every name, gives what it gave before.
  pub register_module_lem :
      (version : ℕ × ℕ × ℕ) (std : Sorting) (name ns : String) (vs : List ℕ) (f : V)
      (r : Registry V)
      → ((register_module version std name ns vs f r).0 ≡ (
          if is_version_compatible version vs
          then (if contains name ns r then invalid else done)
          else incompatible))
        × ((k j : String)
            → get_module_constructor k j (register_module version std name ns vs f r).1 ≡ (
                if is_version_compatible version vs
                  && (if contains name ns r then false else str_eq ns j && str_eq name k)
                then some f
                else get_module_constructor k j r))
  unfolding register_module contains
  register_module_lem version std name ns vs f r = (
    ground (arith, ensure-get name ns ns r),
    λ k j. ground (
      arith,
      ensure-get name ns ns r,
      ensure-get k j ns r,
      add-get std k j name ns f (ensure_namespace ns r),
    ),
  )

  drop_empty-get :
      (k j ns : String) (r : Registry V)
      → get_module_constructor k j (drop_empty ns r) ≡ get_module_constructor k j r
  unfolding drop_empty get_module_constructor
  drop_empty-get k j ns r =
      let emptied = find-is_empty k (modules_of ns r) in
      ground (
        arith,
        emptied,
        find-remove j ns r.module_namespace_registry,
        constructor-modules_of ns k r,
        eq_iff ns j,
      )

  -- unregister_module of a registered module succeeds; of a missing one it succeeds if it is optional
  -- and is refused else. Afterwards the module is not there, and every other name gives what it gave
  -- before.
  pub unregister_module_lem :
      (name ns : String) (optional : Bool) (r : Registry V)
      → ((unregister_module name ns optional r).0
          ≡ (if contains name ns r then done else if optional then done else invalid))
        × ((k j : String)
            → get_module_constructor k j (unregister_module name ns optional r).1
              ≡ (if str_eq ns j && str_eq name k then none else get_module_constructor k j r))
  unfolding unregister_module contains
  unregister_module_lem name ns optional r = (
    ground arith,
    λ k j. ground (
      arith,
      drop_empty-get k j ns (record {
        module_namespace_registry =
            put ns (remove name (modules_of ns r)) r.module_namespace_registry;
        module_name_map = put ns (erase_name name (names_of ns r)) r.module_name_map;
      }),
      constructor-put j ns k (remove name (modules_of ns r))
          (put ns (erase_name name (names_of ns r)) r.module_name_map) r,
      find-remove k name (modules_of ns r),
      constructor-modules_of ns k r,
      eq_iff ns j,
      eq_iff name k,
    ),
  )
