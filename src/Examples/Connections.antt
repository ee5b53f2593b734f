-- ===== src/Examples/Connections.antt =====
-- The connection manager on small data.
use Prim.Native.String.{String}
use mrc.Prelude.{ℕ, ◌≡◌, refl, true, List, [], ◌∷◌}
use mrc.ControlPlane.Connections.{
  Manager, create, error, Request, add_stream, register_instances, activate_stream, drop_stream,
}
use mrc.ControlPlane.Connections.Dropping.{
  Call, adds, registers, activates, after, dropped_address_refused,
}

abbrev stream : ℕ
stream = 1

abbrev next_stream : ℕ
next_stream = 2

abbrev nine : ℕ
nine = 9

abbrev two_workers : List Request
two_workers = ("a", 9) ∷ ("b", 10) ∷ []

abbrev same_worker : List Request
same_worker = ("a", 11) ∷ []

abbrev worker_ids : List ℕ
worker_ids = 9 ∷ 10 ∷ []

abbrev worker : String
worker = "a"

abbrev open_streams : Manager
open_streams = (add_stream next_stream true (add_stream stream true create).1).1

abbrev with_workers : Manager
with_workers = (register_instances stream two_workers open_streams).1

-- Another stream comes and brings an instance.
abbrev meanwhile : List Call
meanwhile = adds 3 true ∷ registers 3 (("c", 11) ∷ []) ∷ activates 3 (11 ∷ []) ∷ []

dropped_address_refused_example :
    let later = after meanwhile (
      drop_stream stream (
        activate_stream stream worker_ids
          (register_instances stream two_workers open_streams).1)) in
    register_instances next_stream same_worker later ≡ (error, later)
dropped_address_refused_example =
    dropped_address_refused stream next_stream two_workers same_worker open_streams stream
      worker_ids worker meanwhile (unfold register_instances add_stream create in refl) refl refl
