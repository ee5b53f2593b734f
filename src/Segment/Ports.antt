-- ===== src/Segment/Ports.antt =====
-- cpp/mrc/src/public/modules/segment_modules.cpp: which ports a registration adds to.
use mrc.Prelude.{
  ℕ, ◌≡◌, refl, Bool, not, ◌&&◌, ◌||◌, Option, none, some, if◌then◌else◌, arith, Option-cases, inl,
  inr,
}
use mrc.Prelude.Maps.{is_some}
use mrc.Segment.{
  Text, same, find, Object, SegmentModule, register_typed_input_port, register_typed_output_port,
  register_input_port,
}
use mrc.Segment.Paths.{find-put}

-- The input and the output of a name.
abbrev pub ports_of : Text → Option SegmentModule → Option (Option ℕ × Option ℕ)
ports_of j none = none
ports_of j (some m) = some (find j m.input_ports, find j m.output_ports)

-- Whether an object is registered as an input, and whether as an output, when it is to be an input.
abbrev pub as_input : Object → Bool
as_input o =
    is_some o.sink_type
    || (not (is_some o.writable_provider_type) && is_some o.readable_acceptor_type)

abbrev pub as_output : Object → Bool
as_output o = not (is_some o.sink_type) && is_some o.writable_provider_type

typed_input :
    (j name : Text) (object t : ℕ) (m : SegmentModule)
    → ports_of j (register_typed_input_port name object t m) ≡ (
        if is_some (find name m.input_ports)
        then none
        else some
            (if same name j then some object else find j m.input_ports, find j m.output_ports))
unfolding register_typed_input_port
typed_input j name object t m = ground (arith, find-put j name object m.input_ports)

typed_output :
    (j name : Text) (object t : ℕ) (m : SegmentModule)
    → ports_of j (register_typed_output_port name object t m) ≡ (
        if is_some (find name m.output_ports)
        then none
        else some
            (find j m.input_ports, if same name j then some object else find j m.output_ports))
unfolding register_typed_output_port
typed_output j name object t m = ground (arith, find-put j name object m.output_ports)

-- As an input, a sink and a readable acceptor are added to the inputs of the module, but a writable
-- provider that is not a sink is added to its outputs; any other object is refused, and so is a name that
-- the inputs, or for a writable provider the outputs, have already.
pub register_input_port_lem :
    (j name : Text) (object : ℕ) (o : Object) (m : SegmentModule)
    → ports_of j (register_input_port name object o m) ≡ (
        if as_output o
        then if is_some (find name m.output_ports)
          then none
          else some
              (find j m.input_ports, if same name j then some object else find j m.output_ports)
        else if not (as_input o) || is_some (find name m.input_ports)
        then none
        else some
            (if same name j then some object else find j m.input_ports, find j m.output_ports))
unfolding register_input_port
register_input_port_lem j name object o m = elim (Option-cases o.sink_type) [
  | inr (t, e) ↦ rw (register_input_port, e) (typed_input j name object t m)
  | inl n ↦ elim (Option-cases o.writable_provider_type) [
    | inr (t, e) ↦ rw (register_input_port, n, e) (typed_output j name object t m)
    | inl k ↦ elim (Option-cases o.readable_acceptor_type) [
      | inr (t, e) ↦ rw (register_input_port, n, k, e) (typed_input j name object t m)
      | inl l ↦ rw (register_input_port, n, k, l) refl
    ]
  ]
]
