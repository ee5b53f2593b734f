-- ===== src/Examples/Servers.antt =====
-- The control plane's server on small data.
use text.Mathlib.Text.{◌==◌ as str_eq}
use mrc.Prelude.{
  if◌then◌else◌, ℕ, ◌≡◌, ◌≢◌, refl, true, false, Option, none, some, List, [], ◌∷◌, arith,
}
use mrc.Prelude.Maps.{lookup, contains}
use mrc.ControlPlane.Events.{ClientInstance}
use mrc.ControlPlane.Issuer.{of_instance}
use mrc.ControlPlane.Tagged
use mrc.ControlPlane.Tagged.{is_issued_tag}
use mrc.ControlPlane.Issuer.{drop_instance}
use mrc.ControlPlane.Connections
use mrc.ControlPlane.Connections.{add_stream, in_use, get_instance_ids}
use mrc.ControlPlane.Connections.Dropping.{has_instance}
use mrc.ControlPlane.Subscriptions.{Service, activate_instance, do_drop_tag, valid_roles}
use mrc.ControlPlane.Server.{
  Server, ClientEvent, Message, register_workers, activate_workers, create_service,
  register_service, activate_service, drop_service, drop_worker, Handled, died, silent, responds,
  ack, instance_error, create, find_service, unreadable_update, unary_response,
}
use mrc.ControlPlane.Role.{Role}
use mrc.ControlPlane.Server.Handlers.{
  handle_event, Step, accepts, handles, issues, run, unary_register_workers,
  unary_create_subscription_service,
}
use mrc.ControlPlane.Server.Attached.{Attached}
use mrc.ControlPlane.Server.History.{history-Attached}
use mrc.ControlPlane.Server.Requests.{
  event, foreign_instance_refused, drop_unheld_tag-died, drop_foreign_worker,
}
use mrc.ControlPlane.Server.Closing.{closed_stream_lem, Untagged}

-- Two streams, of which the first registers a worker that reads from a service.
abbrev history : List Step
history =
    accepts 1
    ∷ accepts 2
    ∷ handles (event 1 (register_workers (("a", 9) ∷ [])))
    ∷ handles (event 1 (activate_workers (9 ∷ [])))
    ∷ handles (event 1 (create_service "port" ("reader" ∷ "writer" ∷ [])))
    ∷ handles (event 1 (register_service "port" "reader" ("writer" ∷ []) 9))
    ∷ handles (event 1 (activate_service "port" "reader" ("writer" ∷ []) 9 65538))
    ∷ issues
    ∷ []

abbrev server_of : Option Server → Server
server_of none = create
server_of (some s) = s

abbrev served : Server
served = server_of (run history create)

run-history : run history create ≡ some served
unfolding run unary_response unary_register_workers add_stream create Connections.create
    unary_create_subscription_service Tagged.next
    mrc.ControlPlane.Server.Handlers.unary_activate_stream
    mrc.ControlPlane.Server.Handlers.unary_register_subscription_service Connections.get_instance
    Connections.activate_stream mrc.ControlPlane.Subscriptions.has_role
    mrc.ControlPlane.Subscriptions.construct mrc.ControlPlane.Subscriptions.register_instance
    mrc.ControlPlane.Issuer.register_instance_id Tagged.next_tag
    mrc.ControlPlane.Server.Handlers.unary_activate_subscription_service activate_instance
    Tagged.is_issued_tag
run-history = refl

history-Attached_example : Attached served
history-Attached_example = history-Attached history served run-history

-- A worker of stream 1 that is a member of the reader's role.
abbrev worker_nine : ClientInstance
worker_nine = record { id = 9; stream_writer = 1; worker_address = "a" }

abbrev reader_role : Role
reader_role = record {
  service_name = "port";
  role_name = "reader";
  version = record { current_nonce = 1; issued_nonce = 1 };
  members = [];
  subscribers = [];
  subscriber_nonces = [];
  latched_members = [];
}

abbrev port_service : Service
port_service = record {
  tagged = record { tag = 65536; uid = 2 };
  instance_tags = (9, 65538) ∷ [];
  derived = record { name = "port"; roles = ("reader", reader_role) ∷ []; sent = [] };
}

abbrev serving : Server
serving = record {
  connections = record {
    version = record { current_nonce = 2; issued_nonce = 2 };
    streams = (1, true) ∷ (2, true) ∷ [];
    instances = (9, worker_nine) ∷ [];
    ucx_worker_addresses = "a" ∷ [];
    instances_by_stream = (1, 9) ∷ [];
  };
  services = ("port", port_service) ∷ [];
  next_block = 1;
}

abbrev stream_end : ClientEvent
stream_end = record { stream = 1; ok = false; writable = true; message = unreadable_update }

abbrev stream_one : ℕ
stream_one = 1

abbrev stream_two : ℕ
stream_two = 2

one_two : stream_one ≢ stream_two
one_two e = omega arith

two_one : stream_two ≢ stream_one
two_one e = omega arith

foreign_instance_refused_example :
    let refused : Handled × Server = (responds instance_error, serving) in
    (handle_event (event stream_two (register_service ("port") ("reader") (([])) 9)) serving
      ≡ refused)
    × (handle_event (event stream_two (activate_service ("port") ("reader") (([])) 9 65538)) serving
        ≡ refused)
    × (handle_event (event stream_two (drop_service ("port") 9 65538)) serving ≡ refused)
foreign_instance_refused_example =
    foreign_instance_refused stream_two 9 worker_nine "port" "reader" [] 65538 serving
      (unfold lookup in refl) one_two

drop_unheld_tag-died_example : (handle_event (event 1 (drop_service ("port") 9 7)) serving).0 ≡ died
drop_unheld_tag-died_example =
    drop_unheld_tag-died 1 9 worker_nine "port" port_service 7 serving (unfold lookup in refl) refl
      (unfold find_service in refl) refl

drop_foreign_worker_example :
    let (a, s') = handle_event (event stream_two (drop_worker 9)) serving in
    (a ≡ responds ack)
    × (lookup 9 s'.connections.instances ≡ none)
    × (in_use "a" s'.connections.ucx_worker_addresses ≡ (
        if str_eq worker_nine.worker_address "a"
        then false
        else in_use "a" serving.connections.ucx_worker_addresses))
    × (get_instance_ids stream_one s'.connections ≡ get_instance_ids stream_one serving.connections)
drop_foreign_worker_example =
    drop_foreign_worker stream_two stream_one 9 worker_nine "a" serving two_one
      (unfold lookup in refl)

closed_stream_lem_example :
    let (a, s') = handle_event stream_end serving in
    (a ≡ silent)
    × (contains stream_end.stream s'.connections.streams ≡ false)
    × ((id : ℕ)
        → has_instance id (of_instance stream_end.stream serving.connections.instances_by_stream)
          ≡ true
        → (lookup id s'.connections.instances ≡ none) × Untagged id s'.services)
closed_stream_lem_example = closed_stream_lem stream_end serving refl (unfold contains in refl)
