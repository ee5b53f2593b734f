-- ===== src/Modules.antt =====
-- cpp/mrc/src/public/modules/module_registry.cpp: the constructors of modules by namespace and name, and
-- beside them the names of each namespace. A constructor is a value of any type. The version of the
-- library, which the build sets, and `std::sort` are parameters.
pub mod TextMaps
pub mod Consistency
pub mod Registration
use Prim.Native.String.{String}
use text.Mathlib.Text.{◌==◌ as str_eq}
use mrc.Prelude.{
  ℕ, suc, ◌≡◌, Bool, true, false, ◌&&◌, Option, none, some, List, [], ◌∷◌, ◌++◌, ◌==◌,
  if◌then◌else◌,
}
use mrc.Prelude.Maps.{is_some}

-- A `std::map` with text keys: its entries, in any order.
abbrev pub TextMap : Type 0 → Type 0
TextMap V = List (String × V)

module _ {V : Type 0} where
  unfoldable pub find : String → TextMap V → Option V
  find k [] = none
  find k ((j, v) ∷ m) = if str_eq j k then some v else find k m

  -- `m[k] = v`
  unfoldable pub put : String → V → TextMap V → TextMap V
  put k v [] = (k, v) ∷ []
  put k v ((j, w) ∷ m) = if str_eq j k then (k, v) ∷ m else (j, w) ∷ put k v m

  -- `m.erase(k)`
  unfoldable pub remove : String → TextMap V → TextMap V
  remove k [] = []
  remove k ((j, w) ∷ m) = let rest = remove k m in if str_eq j k then rest else (j, w) ∷ rest

  abbrev pub is_empty : TextMap V → Bool
  is_empty [] = true
  is_empty (e ∷ m) = false

-- Erases the first element that is the name.
unfoldable pub erase_name : String → List String → List String
erase_name n [] = []
erase_name n (k ∷ ks) = let rest = erase_name n ks in if str_eq k n then ks else k ∷ rest

-- How often a name occurs.
unfoldable pub times : String → List String → ℕ
times n [] = 0
times n (k ∷ ks) = if str_eq k n then suc (times n ks) else times n ks

-- `std::sort`, of which the registry needs that it only reorders.
pub record Sorting : Type 0 where
  pub sort : List String → List String
  pub same_elements : (n : String) (l : List String) → times n (sort l) ≡ times n l

pub record Registry (V : Type 0) : Type 0 where
  pub module_namespace_registry : TextMap (TextMap V)
  pub module_name_map : TextMap (List String)

-- `incompatible` is the runtime_error, `invalid` the invalid_argument.
pub data Outcome : Type 0 where
  done incompatible invalid : Outcome

-- The first three elements are compared. Of a shorter vector the code reads past the end, which has no
-- defined result: here it is not compatible.
unfoldable pub is_version_compatible : ℕ × ℕ × ℕ → List ℕ → Bool
is_version_compatible (a, b, c) (x ∷ y ∷ z ∷ rest) = (a == x) && (b == y) && (c == z)
is_version_compatible v release_version = false

module _ {V : Type 0} where
  unfoldable pub initial : Registry V
  initial = record {
    module_namespace_registry = ("default", []) ∷ [];
    module_name_map = ("default", []) ∷ [];
  }

  unfoldable pub contains_namespace : String → Registry V → Bool
  unfolding find
  contains_namespace ns r = is_some (find ns r.module_namespace_registry)

  -- `none` is the invalid_argument.
  unfoldable pub get_module_constructor : String → String → Registry V → Option V
  unfolding find
  get_module_constructor name ns r = elim (find ns r.module_namespace_registry) [
    | none ↦ none
    | some m ↦ find name m
  ]

  unfoldable pub contains : String → String → Registry V → Bool
  unfolding get_module_constructor
  contains name ns r = is_some (get_module_constructor name ns r)

  -- What `operator[]` refers to; a missing entry is made.
  unfoldable pub modules_of : String → Registry V → TextMap V
  unfolding find
  modules_of ns r = elim (find ns r.module_namespace_registry) [ none ↦ [] | some m ↦ m ]

  unfoldable pub names_of : String → Registry V → List String
  unfolding find
  names_of ns r = elim (find ns r.module_name_map) [ none ↦ [] | some l ↦ l ]

  unfoldable pub ensure_namespace : String → Registry V → Registry V
  unfolding contains_namespace put
  ensure_namespace ns r = if contains_namespace ns r then r else record {
    module_namespace_registry = put ns [] r.module_namespace_registry;
    module_name_map = put ns [] r.module_name_map;
  }

  unfoldable pub add_module : Sorting → String → String → V → Registry V → Registry V
  unfolding put modules_of names_of
  add_module std name ns f r = record {
    module_namespace_registry = put ns (put name f (modules_of ns r)) r.module_namespace_registry;
    module_name_map = put ns (std.sort (names_of ns r ++ (name ∷ []))) r.module_name_map;
  }

  unfoldable pub register_module :
      ℕ × ℕ × ℕ → Sorting → String → String → List ℕ → V → Registry V → Outcome × Registry V
  unfolding is_version_compatible ensure_namespace contains add_module
  register_module version std name ns release_version f r =
      let s = ensure_namespace ns r in
      if is_version_compatible version release_version
      then (if contains name ns s then (invalid, s) else (done, add_module std name ns f s))
      else (incompatible, r)

  -- A namespace that has become empty goes.
  unfoldable pub drop_empty : String → Registry V → Registry V
  unfolding modules_of remove
  drop_empty ns r =
      if is_empty (modules_of ns r)
      then record {
        module_namespace_registry = remove ns r.module_namespace_registry;
        module_name_map = remove ns r.module_name_map;
      }
      else r

  unfoldable pub unregister_module : String → String → Bool → Registry V → Outcome × Registry V
  unfolding contains modules_of names_of put remove erase_name drop_empty
  unregister_module name ns optional r =
      if contains name ns r
      then (
        done,
        drop_empty ns (record {
          module_namespace_registry =
              put ns (remove name (modules_of ns r)) r.module_namespace_registry;
          module_name_map = put ns (erase_name name (names_of ns r)) r.module_name_map;
        }),
      )
      else (if optional then done else invalid, r)

-- A call that changes the registry.
pub data Call (V : Type 0) : Type 0 where
  registering : String → String → List ℕ → V → Call V
  unregistering : String → String → Bool → Call V

module _ {V : Type 0} where
  unfoldable pub perform : ℕ × ℕ × ℕ → Sorting → Call V → Registry V → Registry V
  unfolding register_module unregister_module
  perform version std (registering name ns vs f) r = (register_module version std name ns vs f r).1
  perform version std (unregistering name ns optional) r = (unregister_module name ns optional r).1

  unfoldable pub perform_all : ℕ × ℕ × ℕ → Sorting → List (Call V) → Registry V → Registry V
  unfolding perform
  perform_all version std [] r = r
  perform_all version std (c ∷ cs) r = perform_all version std cs (perform version std c r)
