-- ===== src/Segment/Builder.antt =====
-- cpp/mrc/src/internal/segment/builder_definition.cpp: the objects of a segment by their names, in the
-- namespaces of the modules that are being initialized. A module is a number, and what is known of it
-- stands in a store. The initializers and the casts of ports are parameters.
use mrc.Prelude.{
  ℕ, Bool, true, false, ◌||◌, Option, none, some, List, [], ◌∷◌, ◌++◌, foldl, length, if◌then◌else◌,
}
use mrc.Prelude.Maps.{Map, lookup, assign}
use mrc.Segment.{
  Text, slash, has_slash, find, put, accum_merge, starts_with, substr, Object, SegmentModule,
  component_prefix, register_input_port, register_output_port,
}

-- The last of the stacks is the module that is being initialized.
pub record Builder : Type 0 where
  pub name : Text
  pub namespace_prefix : Text
  pub namespace_stack : List Text
  pub module_stack : List ℕ
  pub objects : List (Text × ℕ)
  pub nodes : List (Text × ℕ)
  pub ingress_ports : List (Text × ℕ)
  pub egress_ports : List (Text × ℕ)
  pub persistent_modules : List ℕ
  pub object_store : Map Object
  pub module_store : Map SegmentModule

-- `invalid` is the error of `validate_name` or the invalid_argument of a port, `duplicate` that of a name
-- that is taken, `no_module` the one without a module context, and `died` a failed check.
pub data Built : Type 0 where
  invalid duplicate no_module died : Built
  built : Builder → Built

unfoldable pub create : Text → Map Object → Map SegmentModule → Builder
create name objects modules = record {
  name = name;
  namespace_prefix = [];
  namespace_stack = [];
  module_stack = [];
  objects = [];
  nodes = [];
  ingress_ports = [];
  egress_ports = [];
  persistent_modules = [];
  object_store = objects;
  module_store = modules;
}

abbrev pub is_empty : Text → Bool
is_empty [] = true
is_empty (c ∷ s) = false

unfoldable pub global_prefix : Builder → Text
global_prefix b = slash ∷ (b.name ++ (slash ∷ []))

-- The global and the local name.
unfoldable pub normalize_name : Text → Bool → Builder → Text × Text
unfolding global_prefix starts_with substr
normalize_name name ignore_namespace b =
    if starts_with (global_prefix b) name
    then (name, substr (length (global_prefix b)) name)
    else (let local_name =
          if ignore_namespace || is_empty b.namespace_prefix
          then name
          else b.namespace_prefix ++ (slash ∷ name) in
        (global_prefix b ++ local_name, local_name))

-- `none` is the runtime_error.
unfoldable pub find_object : Text → Builder → Option ℕ
unfolding normalize_name find
find_object name b = find (normalize_name name false b).1 b.objects

unfoldable pub has_object : Text → Builder → Bool
unfolding normalize_name find
has_object name b = elim (find (normalize_name name false b).1 b.objects) [
  | none ↦ false
  | some o ↦ true
]

-- The maps of the nodes and of the ports, once the object has its name.
unfoldable pub enlist : Text → ℕ → Object → Builder → Builder
unfolding put
enlist local_name o p b = record b {
  nodes = if p.is_runnable then put local_name o b.nodes else b.nodes;
  ingress_ports = if p.is_ingress_port then put local_name o b.ingress_ports else b.ingress_ports;
  egress_ports = if p.is_egress_port then put local_name o b.egress_ports else b.egress_ports;
}

-- The object that the pointer refers to is an argument.
unfoldable pub add_object : Text → ℕ → Object → Builder → Built
unfolding has_slash has_object normalize_name put enlist
add_object name o p b =
    if has_slash name
    then Built.invalid
    else if has_object name b
    then Built.duplicate
    else (let (global_name, local_name) = normalize_name name false b in
        let named = record b {
          objects = put local_name o b.objects;
          object_store = assign o (record p { name = global_name }) b.object_store;
        } in
        if p.is_runnable
        then if p.is_launchable then Built.built (enlist local_name o p named) else Built.died
        else Built.built (enlist local_name o p named))

unfoldable pub get_ingress_base : Text → Builder → Option ℕ
unfolding normalize_name find
get_ingress_base name b = find (normalize_name name true b).1 b.ingress_ports

unfoldable pub get_egress_base : Text → Builder → Option ℕ
unfolding normalize_name find
get_egress_base name b = find (normalize_name name true b).1 b.egress_ports

-- With the cast of the registry of the ports' types; `none` is either runtime_error.
unfoldable pub get_ingress : (ℕ → Option ℕ) → Text → Builder → Option ℕ
unfolding get_ingress_base
get_ingress cast name b = elim (get_ingress_base name b) [ none ↦ none | some p ↦ cast p ]

unfoldable pub get_egress : (ℕ → Option ℕ) → Text → Builder → Option ℕ
unfolding get_egress_base
get_egress cast name b = elim (get_egress_base name b) [ none ↦ none | some p ↦ cast p ]

unfoldable pub merged : List Text → Text
unfolding accum_merge
merged stack = foldl accum_merge [] stack

abbrev pub without_last : {A : Type 0} → List A → List A
without_last [] = []
without_last (x ∷ []) = []
without_last (x ∷ y ∷ l) = x ∷ without_last (y ∷ l)

abbrev pub last : {A : Type 0} → List A → Option A
last [] = none
last (x ∷ []) = some x
last (x ∷ y ∷ l) = last (y ∷ l)

unfoldable pub ns_push : ℕ → SegmentModule → Builder → Builder
unfolding merged component_prefix
ns_push id m b =
    let stack = b.namespace_stack ++ (component_prefix m ∷ []) in
    record b {
      module_stack = b.module_stack ++ (id ∷ []);
      namespace_stack = stack;
      namespace_prefix = merged stack;
    }

unfoldable pub ns_pop : Builder → Builder
unfolding merged
ns_pop b =
    let stack = without_last b.namespace_stack in
    record b {
      module_stack = without_last b.module_stack;
      namespace_stack = stack;
      namespace_prefix = merged stack;
    }

-- The builder when the module's initializer has returned, or when it has thrown; the initializer is the
-- module's own and calls the builder.
pub data Initialized : Type 0 where
  returned threw : Builder → Initialized

-- What the module's initializer gets.
unfoldable pub enter_module : ℕ → SegmentModule → Builder → Builder
unfolding ns_push
enter_module id m b =
    let pushed = ns_push id m b in
    record pushed {
      module_store =
          assign id (record m { registered_namespace = pushed.namespace_prefix })
            pushed.module_store;
    }

unfoldable pub leave_module : ℕ → SegmentModule → Initialized → Initialized
unfolding ns_pop
leave_module id m (Initialized.threw b) = Initialized.threw b
leave_module id m (Initialized.returned b) = Initialized.returned (
    ns_pop (record b {
      persistent_modules =
          if m.is_persistent then b.persistent_modules ++ (id ∷ []) else b.persistent_modules;
    }))

unfoldable pub init_module : (Builder → Initialized) → ℕ → SegmentModule → Builder → Initialized
unfolding enter_module leave_module
init_module initialize id m b = leave_module id m (initialize (enter_module id m b))

-- `register` is the module's own registration of an input or of an output.
unfoldable pub register_module_port :
    (Text → ℕ → Object → SegmentModule → Option SegmentModule) → Text → ℕ → Object → Builder → Built
unfolding has_slash
register_module_port register port_name o p b =
    if has_slash port_name then Built.invalid else elim (last b.module_stack) [
      | none ↦ Built.no_module
      | some id ↦ elim (lookup id b.module_store) [
        | none ↦ Built.died
        | some m ↦ elim (register port_name o p m) [
          | none ↦ Built.invalid
          | some m' ↦ Built.built (record b { module_store = assign id m' b.module_store })
        ]
      ]
    ]

unfoldable pub register_module_input : Text → ℕ → Object → Builder → Built
unfolding register_module_port register_input_port
register_module_input name o p b = register_module_port register_input_port name o p b

unfoldable pub register_module_output : Text → ℕ → Object → Builder → Built
unfolding register_module_port register_output_port
register_module_output name o p b = register_module_port register_output_port name o p b
