-- ===== src/Examples/Segments.antt =====
-- A segment with two modules, in bytes.
use mrc.Prelude.{◌≡◌, refl, true, false, not, ◌&&◌, ◌||◌, none, some, List, [], ◌∷◌, if◌then◌else◌}
use mrc.Prelude.Maps.{is_some}
use mrc.Segment.{Text, same, has_slash, find, Object, SegmentModule, register_input_port}
use mrc.Segment.Builder.{Builder, create, find_object, add_object}
use mrc.Segment.Paths.{same_stack}
use mrc.Segment.Scopes.{within, found_in, full_name_in, refused, find-add_object, find-full_name}
use mrc.Segment.Ports.{ports_of, as_input, as_output, register_input_port_lem}

abbrev source : Text
source = 115 ∷ 114 ∷ []

abbrev outer : List Text
outer = (109 ∷ 58 ∷ 58 ∷ 97 ∷ []) ∷ []

abbrev inner : List Text
inner = (109 ∷ 58 ∷ 58 ∷ 97 ∷ []) ∷ (109 ∷ 58 ∷ 58 ∷ 98 ∷ []) ∷ []

-- An ingress provider, which others write to.
abbrev provider : Object
provider = record {
  name = [];
  is_runnable = true;
  is_launchable = true;
  is_ingress_port = false;
  is_egress_port = false;
  sink_type = none;
  source_type = some 3;
  writable_provider_type = some 3;
  writable_acceptor_type = none;
  readable_provider_type = none;
  readable_acceptor_type = none;
}

abbrev new_builder : Builder
new_builder = create (115 ∷ 49 ∷ []) [] []

abbrev filter : SegmentModule
filter = record {
  module_type_name = 109 ∷ [];
  module_instance_name = 97 ∷ [];
  is_persistent = false;
  registered_namespace = [];
  input_port_ids = [];
  output_port_ids = [];
  input_ports = [];
  output_ports = [];
  input_port_type_indices = [];
  output_port_type_indices = [];
}

find-add_object_example :
    found_in inner source (add_object source 7 provider (within outer new_builder)) ≡ (
      if refused source provider (within outer new_builder)
      then none
      else some (
          if same_stack outer inner && same source source
          then some 7
          else find_object source (within inner new_builder)))
find-add_object_example =
    find-add_object outer inner source source 7 provider new_builder
      (refl, unfold has_slash in refl, tt)
      (refl, unfold has_slash in refl, (refl, unfold has_slash in refl, tt))
      (unfold has_slash in refl) (unfold has_slash in refl)

find-full_name_example :
    full_name_in inner 7 (add_object source 7 provider (within outer new_builder))
    ≡ (if refused source provider (within outer new_builder) then none else some (some 7))
find-full_name_example =
    find-full_name outer inner source 7 provider new_builder (refl, unfold has_slash in refl, tt)
      (unfold has_slash in refl)

register_input_port_lem_example : ports_of source (register_input_port source 7 provider filter) ≡ (
    if as_output provider
    then if is_some (find source filter.output_ports)
      then none
      else some (
        find source filter.input_ports,
        if same source source then some 7 else find source filter.output_ports,
      )
    else if not (as_input provider) || is_some (find source filter.input_ports)
    then none
    else some (
      if same source source then some 7 else find source filter.input_ports,
      find source filter.output_ports,
    ))
register_input_port_lem_example = register_input_port_lem source source 7 provider filter
