-- ===== src/Modules/Consistency.antt =====
-- The two maps of the registry agree.
use Prim.Native.String.{String}
use text.Mathlib.Text.{◌==◌ as str_eq}
use text.Mathlib.TextEquality.{eq_iff}
use mrc.Prelude.{
  ℕ, ◌≡◌, refl, Bool, true, false, List, [], ◌∷◌, ◌++◌, if◌then◌else◌, arith, Option-cases,
  Bool-cases, inl, inr,
}
use mrc.Prelude.Maps.{is_some}
use mrc.Modules.{
  TextMap, find, put, remove, erase_name, times, is_empty, Sorting, Registry, is_version_compatible,
  initial, contains_namespace, get_module_constructor, contains, modules_of, names_of,
  ensure_namespace, add_module, register_module, drop_empty, unregister_module, Call, registering,
  unregistering, perform, perform_all,
}
use mrc.Modules.TextMaps.{find-put, find-remove, times-append, times-erase_name}

module _ {V : Type 0} where
  -- The maps have the same namespaces, and a namespace lists each of its modules once and nothing else.
  pub record Consistent (r : Registry V) : Type 0 where
    pub same_namespaces :
        (ns : String)
        → is_some (find ns r.module_namespace_registry) ≡ is_some (find ns r.module_name_map)
    pub listed :
        (ns name : String) → times name (names_of ns r) ≡ (if contains name ns r then 1 else 0)

  pub initial-Consistent : Consistent initial
  unfolding initial names_of contains get_module_constructor
  initial-Consistent = record {
    same_namespaces = λ ns. unfold find in ground arith;
    listed = λ ns name. unfold find times in ground arith;
  }

  -- What the changes of both maps make of the lookups.
  names_of-put :
      (j ns : String) (l : List String) (c : TextMap (TextMap V)) (r : Registry V)
      → names_of j
          (record { module_namespace_registry = c; module_name_map = put ns l r.module_name_map })
        ≡ (if str_eq ns j then l else names_of j r)
  unfolding names_of
  names_of-put j ns l c r = ground (arith, find-put j ns l r.module_name_map)

  pub constructor-put :
      (j ns name : String) (m : TextMap V) (n : TextMap (List String)) (r : Registry V)
      → get_module_constructor name j (record {
        module_namespace_registry = put ns m r.module_namespace_registry;
        module_name_map = n;
      })
        ≡ (if str_eq ns j then find name m else get_module_constructor name j r)
  unfolding get_module_constructor
  constructor-put j ns name m n r = ground (arith, find-put j ns m r.module_namespace_registry)

  pub constructor-modules_of :
      (ns name : String) (r : Registry V)
      → get_module_constructor name ns r ≡ find name (modules_of ns r)
  unfolding get_module_constructor modules_of
  constructor-modules_of ns name r = elim (Option-cases (find ns r.module_namespace_registry)) [
    | inl n ↦ unfold find in ground (arith, n)
    | inr (m, y) ↦ ground (arith, y)
  ]

  -- Both maps get a value for one namespace.
  update-Consistent :
      (ns : String) (m : TextMap V) (l : List String) (r : Registry V)
      → Consistent r
      → ((name : String) → times name l ≡ (if is_some (find name m) then 1 else 0))
      → Consistent (record {
        module_namespace_registry = put ns m r.module_namespace_registry;
        module_name_map = put ns l r.module_name_map;
      })
  unfolding contains
  update-Consistent ns m l r v h = record {
    same_namespaces = λ j. ground (
      arith,
      find-put j ns m r.module_namespace_registry,
      find-put j ns l r.module_name_map,
      v.same_namespaces j,
    );
    listed = λ j name. ground (
      arith,
      names_of-put j ns l (put ns m r.module_namespace_registry) r,
      constructor-put j ns name m (put ns l r.module_name_map) r,
      h name,
      v.listed j name,
    );
  }

  pub ensure-Consistent :
      (ns : String) (r : Registry V) → Consistent r → Consistent (ensure_namespace ns r)
  unfolding ensure_namespace
  ensure-Consistent ns r v = elim (Bool-cases (contains_namespace ns r)) [
    | inl y ↦ rw (y, ensure_namespace) v
    | inr n ↦
        rw (n, ensure_namespace)
          (update-Consistent ns [] [] r v (λ name. unfold times find in refl))
  ]

  pub add_module-Consistent :
      (std : Sorting) (ns name : String) (f : V) (r : Registry V)
      → contains name ns r ≡ false
      → Consistent r
      → Consistent (add_module std name ns f r)
  unfolding add_module contains
  add_module-Consistent std ns name f r e v =
      update-Consistent ns (put name f (modules_of ns r)) (std.sort (names_of ns r ++ (name ∷ [])))
        r v
        (λ k.
          unfold times in
          ground (
            arith,
            std.same_elements k (names_of ns r ++ (name ∷ [])),
            times-append k (names_of ns r) (name ∷ []),
            find-put k name f (modules_of ns r),
            constructor-modules_of ns k r,
            v.listed ns k,
            eq_iff name k,
          ))

  pub register_module-Consistent :
      (version : ℕ × ℕ × ℕ) (std : Sorting) (name ns : String) (vs : List ℕ) (f : V)
      (r : Registry V)
      → Consistent r
      → Consistent (register_module version std name ns vs f r).1
  unfolding register_module
  register_module-Consistent version std name ns vs f r v =
      elim (Bool-cases (is_version_compatible version vs)) [
        | inr n ↦ rw (n, register_module) v
        | inl y ↦ elim (Bool-cases (contains name ns (ensure_namespace ns r))) [
          | inl c ↦ rw (y, c, register_module) (ensure-Consistent ns r v)
          | inr c ↦
              rw (y, c, register_module)
                (add_module-Consistent std ns name f (ensure_namespace ns r) c
                  (ensure-Consistent ns r v))
        ]
      ]

  -- A namespace leaves both maps.
  remove-Consistent :
      (ns : String) (r : Registry V)
      → Consistent r
      → Consistent (record {
        module_namespace_registry = remove ns r.module_namespace_registry;
        module_name_map = remove ns r.module_name_map;
      })
  unfolding contains get_module_constructor names_of
  remove-Consistent ns r v = record {
    same_namespaces = λ j. ground (
      arith,
      find-remove j ns r.module_namespace_registry,
      find-remove j ns r.module_name_map,
      v.same_namespaces j,
    );
    listed = λ j name.
        unfold times in
        ground (
          arith,
          find-remove j ns r.module_namespace_registry,
          find-remove j ns r.module_name_map,
          v.listed j name,
        );
  }

  pub drop_empty-Consistent :
      (ns : String) (r : Registry V) → Consistent r → Consistent (drop_empty ns r)
  unfolding drop_empty
  drop_empty-Consistent ns r v = elim (Bool-cases (is_empty (modules_of ns r))) [
    | inl y ↦ rw (y, drop_empty) (remove-Consistent ns r v)
    | inr n ↦ rw (n, drop_empty) v
  ]

  pub erase_module-Consistent :
      (ns name : String) (r : Registry V)
      → contains name ns r ≡ true
      → Consistent r
      → Consistent (record {
        module_namespace_registry =
            put ns (remove name (modules_of ns r)) r.module_namespace_registry;
        module_name_map = put ns (erase_name name (names_of ns r)) r.module_name_map;
      })
  unfolding contains
  erase_module-Consistent ns name r e v =
      update-Consistent ns (remove name (modules_of ns r)) (erase_name name (names_of ns r)) r v
        (λ k. ground (
          arith,
          times-erase_name k name (names_of ns r),
          find-remove k name (modules_of ns r),
          constructor-modules_of ns k r,
          v.listed ns k,
          eq_iff name k,
        ))

  pub unregister_module-Consistent :
      (name ns : String) (optional : Bool) (r : Registry V)
      → Consistent r
      → Consistent (unregister_module name ns optional r).1
  unfolding unregister_module
  unregister_module-Consistent name ns optional r v = elim (Bool-cases (contains name ns r)) [
    | inl y ↦
        rw (y, unregister_module)
          (drop_empty-Consistent ns _ (erase_module-Consistent ns name r y v))
    | inr n ↦ rw (n, unregister_module) v
  ]

  perform-Consistent :
      (version : ℕ × ℕ × ℕ) (std : Sorting) (c : Call V) (r : Registry V)
      → Consistent r
      → Consistent (perform version std c r)
  unfolding perform
  perform-Consistent version std (registering name ns vs f) r v =
      register_module-Consistent version std name ns vs f r v
  perform-Consistent version std (unregistering name ns optional) r v =
      unregister_module-Consistent name ns optional r v

  pub perform_all-Consistent :
      (version : ℕ × ℕ × ℕ) (std : Sorting) (cs : List (Call V)) (r : Registry V)
      → Consistent r
      → Consistent (perform_all version std cs r)
  unfolding perform_all
  perform_all-Consistent version std [] r v = v
  perform_all-Consistent version std (c ∷ cs) r v =
      perform_all-Consistent version std cs (perform version std c r)
        (perform-Consistent version std c r v)

  -- After any calls of register_module and unregister_module on the initial registry, refused ones
  -- included, both maps have the same namespaces, and a namespace's list of names has each module that
  -- is registered in it once and no other name.
  pub registry-Consistent :
      (version : ℕ × ℕ × ℕ) (std : Sorting) (cs : List (Call V))
      → Consistent (perform_all version std cs initial)
  registry-Consistent version std cs =
      perform_all-Consistent version std cs initial initial-Consistent
