-- ===== src/Segment.antt =====
-- SegmentModule of cpp/mrc/src/public/modules/segment_modules.cpp, and what the builder of a segment knows
-- of an object. A string is the list of its bytes. Objects are shared: a pointer is a number, and what is
-- known of the object stands in a store.
pub mod Builder
pub mod Paths
pub mod Scopes
pub mod Nesting
pub mod Ports
use mrc.Prelude.{
  ℕ, zero, suc, Bool, true, false, Option, none, some, List, [], ◌∷◌, ◌++◌, ◌==◌, if◌then◌else◌,
}

abbrev pub Text : Type 0
Text = List ℕ

-- The byte '/'.
abbrev pub slash : ℕ
slash = 47

unfoldable pub same : Text → Text → Bool
same [] [] = true
same [] (c ∷ t) = false
same (b ∷ s) [] = false
same (b ∷ s) (c ∷ t) = if b == c then same s t else false

unfoldable pub has_slash : Text → Bool
has_slash [] = false
has_slash (c ∷ s) = if c == slash then true else has_slash s

-- A `std::map` with strings for its keys; only lookups are asked of it.
module _ {V : Type 0} where
  unfoldable pub find : Text → List (Text × V) → Option V
  unfolding same
  find k [] = none
  find k ((j, v) ∷ m) = if same j k then some v else find k m

  -- `m[k] = v`
  unfoldable pub put : Text → V → List (Text × V) → List (Text × V)
  unfolding same
  put k v [] = (k, v) ∷ []
  put k v ((j, w) ∷ m) = let rest = put k v m in if same j k then (k, v) ∷ m else (j, w) ∷ rest

unfoldable pub accum_merge : Text → Text → Text
accum_merge [] rhs = rhs
accum_merge (c ∷ lhs) rhs = (c ∷ lhs) ++ (slash ∷ rhs)

unfoldable pub starts_with : Text → Text → Bool
starts_with [] s = true
starts_with (c ∷ p) [] = false
starts_with (c ∷ p) (d ∷ s) = if c == d then starts_with p s else false

-- `s.substr(n)`
unfoldable pub substr : ℕ → Text → Text
substr zero s = s
substr (suc n) [] = []
substr (suc n) (c ∷ s) = substr n s

-- What an object is; a type that it has not is `none`.
pub record Object : Type 0 where
  pub name : Text
  pub is_runnable : Bool
  pub is_launchable : Bool
  pub is_ingress_port : Bool
  pub is_egress_port : Bool
  pub sink_type : Option ℕ
  pub source_type : Option ℕ
  pub writable_provider_type : Option ℕ
  pub writable_acceptor_type : Option ℕ
  pub readable_provider_type : Option ℕ
  pub readable_acceptor_type : Option ℕ

pub record SegmentModule : Type 0 where
  pub module_type_name : Text
  pub module_instance_name : Text
  pub is_persistent : Bool
  pub registered_namespace : Text
  pub input_port_ids : List Text
  pub output_port_ids : List Text
  pub input_ports : List (Text × ℕ)
  pub output_ports : List (Text × ℕ)
  pub input_port_type_indices : List (Text × ℕ)
  pub output_port_type_indices : List (Text × ℕ)

-- `none` is the invalid_argument.
unfoldable pub create_module : Text → Text → Bool → Option SegmentModule
unfolding has_slash
create_module type_name module_name persistent =
    if has_slash module_name
    then none
    else some (record {
      module_type_name = type_name;
      module_instance_name = module_name;
      is_persistent = persistent;
      registered_namespace = [];
      input_port_ids = [];
      output_port_ids = [];
      input_ports = [];
      output_ports = [];
      input_port_type_indices = [];
      output_port_type_indices = [];
    })

-- The type and the name with "::" between them.
unfoldable pub component_prefix : SegmentModule → Text
component_prefix m = m.module_type_name ++ (58 ∷ 58 ∷ m.module_instance_name)

-- `try_emplace`
unfoldable pub try_emplace : Text → ℕ → List (Text × ℕ) → List (Text × ℕ)
unfolding find put
try_emplace k t m = elim (find k m) [ none ↦ put k t m | some u ↦ m ]

-- `none` is the invalid_argument.
unfoldable pub register_typed_input_port : Text → ℕ → ℕ → SegmentModule → Option SegmentModule
unfolding find put try_emplace
register_typed_input_port name object tidx m = elim (find name m.input_ports) [
  | some o ↦ none
  | none ↦ some (record m {
    input_port_ids = m.input_port_ids ++ (name ∷ []);
    input_ports = put name object m.input_ports;
    input_port_type_indices = try_emplace name tidx m.input_port_type_indices;
  })
]

unfoldable pub register_typed_output_port : Text → ℕ → ℕ → SegmentModule → Option SegmentModule
unfolding find put try_emplace
register_typed_output_port name object tidx m = elim (find name m.output_ports) [
  | some o ↦ none
  | none ↦ some (record m {
    output_port_ids = m.output_port_ids ++ (name ∷ []);
    output_ports = put name object m.output_ports;
    output_port_type_indices = try_emplace name tidx m.output_port_type_indices;
  })
]

unfoldable pub register_input_port : Text → ℕ → Object → SegmentModule → Option SegmentModule
unfolding register_typed_input_port register_typed_output_port
register_input_port name object o m = elim o.sink_type [
  | some t ↦ register_typed_input_port name object t m
  | none ↦ elim o.writable_provider_type [
    | some t ↦ register_typed_output_port name object t m
    | none ↦ elim o.readable_acceptor_type [
      | some t ↦ register_typed_input_port name object t m
      | none ↦ none
    ]
  ]
]

unfoldable pub register_output_port : Text → ℕ → Object → SegmentModule → Option SegmentModule
unfolding register_typed_output_port
register_output_port name object o m = elim o.source_type [
  | some t ↦ register_typed_output_port name object t m
  | none ↦ elim o.writable_acceptor_type [
    | some t ↦ register_typed_output_port name object t m
    | none ↦ elim o.readable_provider_type [
      | some t ↦ register_typed_output_port name object t m
      | none ↦ none
    ]
  ]
]
