-- ===== src/ControlPlane/Server.antt =====
-- `Server` of cpp/mrc/src/internal/control_plane/server.{hpp,cpp}: the events of the clients' streams,
-- handled one at a time under the server's mutex, over the connections and the subscription services. A
-- set of role names is in the order of the request. `died` is LOG(FATAL), which ends the process; what
-- the state is then does not matter. The static counter of `Tagged::next` belongs to the state.
pub mod Handlers
pub mod Tags
pub mod Connected
pub mod Attached
pub mod History
pub mod Requests
pub mod Closing
use Prim.Native.String.{String}
use text.Mathlib.Text.{◌==◌ as str_eq}
use mrc.Prelude.{
  ℕ, Bool, true, false, not, Option, none, some, List, [], ◌∷◌, ◌++◌, ◌&&◌, ◌==◌, if◌then◌else◌,
  all, map,
}
use mrc.Prelude.Maps.{Map, contains}
use mrc.ControlPlane.Tagged
use mrc.ControlPlane.Events.{ClientInstance, Event}
use mrc.ControlPlane.Issuer
use mrc.ControlPlane.Connections
use mrc.ControlPlane.Connections.{
  Manager, Reply, value, error, fatal, Request, WorkerAddress, add_stream, get_instance,
  get_instance_ids, register_instances, activate_stream, lookup_workers,
}
use mrc.ControlPlane.Subscriptions.{
  Service, Expected, construct, has_role, compare_roles, register_instance, activate_instance,
  update_role, do_drop_tag, do_issue_update,
}
use mrc.ControlPlane.Subscriptions

-- The event types with what their messages hold. A message that is missing or of another type is one of
-- the last three, by what its handler makes of it.
pub data Message : Type 0 where
  request_state_update unhandled_event : Message
  register_workers : List Request → Message
  activate_workers : List ℕ → Message
  lookup_worker_addresses : List ℕ → Message
  drop_worker : ℕ → Message
  create_service : String → List String → Message
  register_service : String → String → List String → ℕ → Message
  activate_service : String → String → List String → ℕ → ℕ → Message
  drop_service : String → ℕ → ℕ → Message
  update_service : String → String → List ℕ → ℕ → Message
  unreadable_worker_message unreadable_service_message unreadable_update : Message

-- `writable` tells whether the response can be written to the stream.
pub record ClientEvent : Type 0 where
  pub stream : ℕ
  pub ok : Bool
  pub writable : Bool
  pub message : Message

-- The messages of responses, and the instance error.
pub data Response : Type 0 where
  workers_registered : ℕ → List ℕ → Response
  worker_addresses : List WorkerAddress → Response
  service_registered : String → String → ℕ → Response
  ack instance_error : Response

pub data Handled : Type 0 where
  silent died : Handled
  responds : Response → Handled

abbrev pub Services : Type 0
Services = List (String × Service)

pub record Server : Type 0 where
  pub connections : Manager
  pub services : Services
  pub next_block : ℕ

unfoldable pub create : Server
create = record { connections = Connections.create; services = []; next_block = 0 }

-- `unary_response`: an error of the request is a response too.
unfoldable pub unary_response : ClientEvent → Reply Response → Handled
unary_response e fatal = died
unary_response e error = if e.writable then responds instance_error else died
unary_response e (value r) = if e.writable then responds r else died

unfoldable pub reply_map : {A B : Type 0} → (A → B) → Reply A → Reply B
reply_map f (value a) = value (f a)
reply_map f error = error
reply_map f fatal = fatal

-- An exception of `next_tag` ends in `on_fatal_exception`.
unfoldable pub of_expected : {A B : Type 0} → (A → B) → Expected A → Reply B
of_expected f (Subscriptions.value a) = value (f a)
of_expected f Subscriptions.check_failed = error
of_expected f Subscriptions.overflow = fatal

unfoldable pub find_service : String → Services → Option Service
find_service name [] = none
find_service name ((n, s) ∷ ss) = if str_eq n name then some s else find_service name ss

-- The service of the name after a call of one of its methods.
unfoldable pub put_service : String → Service → Services → Services
put_service name t [] = []
put_service name t ((n, s) ∷ ss) =
    if str_eq n name then (n, t) ∷ ss else (n, s) ∷ put_service name t ss

-- Whether `check_unique_repeated_field` passes.
unfoldable pub unique : List String → Bool
unique [] = true
unique (n ∷ ns) = not (Connections.in_use n ns) && unique ns

unfoldable pub validate_instance_id : ℕ → ClientEvent → Server → Option ClientInstance
validate_instance_id id e s = elim (get_instance id s.connections) [
  | value i ↦ if i.stream_writer == e.stream then some i else none
  | error ↦ none
  | fatal ↦ none
]

unfoldable pub each_service : (Service → Service) → Services → Services
each_service f [] = []
each_service f ((n, s) ∷ ss) = (n, f s) ∷ each_service f ss

unfoldable pub drop_instance : ℕ → Services → Services
unfolding each_service
drop_instance id ss = each_service (Issuer.drop_instance do_drop_tag id) ss

unfoldable pub drop_each : List ℕ → Services → Services
unfolding drop_instance
drop_each [] ss = ss
drop_each (id ∷ ids) ss = drop_each ids (drop_instance id ss)

-- `none`: there is no such stream, which is fatal.
unfoldable pub drop_stream : ℕ → Server → Option Server
unfolding drop_each contains
drop_stream id s =
    if contains id s.connections.streams
    then some (record s {
      services = drop_each (get_instance_ids id s.connections) s.services;
      connections = Connections.drop_stream id s.connections;
    })
    else none
