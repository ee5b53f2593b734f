-- ===== src/Examples/Clients.antt =====
-- A client of the connections, on small data.
use mrc.Prelude.{
  ℕ, ◌≡◌, refl, Option, List, All, ◌==◌, ◌||◌, true, false, none, some, [], ◌∷◌, if◌then◌else◌,
  arith,
}
use mrc.Prelude.Maps.{Map, lookup, contains, assign, erase, is_some}
use mrc.ControlPlane.Events.{StateUpdate, drop_subscription_service}
use mrc.ControlPlane.Instances.{Subscription, Subscriptions}
use mrc.ControlPlane.Connections.{Manager, make_update}
use mrc.ControlPlane.Client.{ConnectionsManager, update}
use mrc.ControlPlane.AsyncClient.{
  EventType, Event, AsyncEventStatus, Channel, Client, create, value_of, route_state_update,
}
use mrc.ControlPlane.AsyncClient.Promises.{Step, request, issue, receive, first_response, run}
use mrc.ControlPlane.AsyncClient.Answers.{run-answers}
use mrc.ControlPlane.AsyncClient.Routing.{receives, channel_in, route_state_update_lem}
use mrc.ControlPlane.Client.Following.{active, Agrees, address_of, answered, update-make_update}

abbrev server_side : Manager
server_side = record {
  version = record { current_nonce = 2; issued_nonce = 2 };
  streams = (1, true) ∷ [];
  instances = (9, record { id = 9; stream_writer = 1; worker_address = "a" }) ∷ [];
  ucx_worker_addresses = "a" ∷ [];
  instances_by_stream = (1, 9) ∷ [];
}

-- It still knows an instance that has gone.
abbrev client_side : ConnectionsManager
client_side = record {
  nonce = 1;
  update_promises = 2;
  machine_id = 5;
  instance_ids = 4 ∷ [];
  worker_addresses = (4, "z") ∷ [];
  update_channels = [];
}

sides-Agrees : Agrees client_side server_side
sides-Agrees = λ id a i h h'. unfold lookup in ground (arith, h, h')

activated :
    (id : ℕ) → active id server_side ≡ true → is_some (lookup id server_side.instances) ≡ true
activated id e = unfold lookup in ground (arith, e)

update-make_update_example :
    (m' : ConnectionsManager) × (update (answered server_side) (make_update server_side) client_side
      ≡ some m')
    × (m'.nonce ≡ server_side.version.current_nonce)
    × (m'.update_promises ≡ 0)
    × ((id : ℕ)
        → lookup id m'.worker_addresses
          ≡ (if active id server_side then address_of (lookup id server_side.instances) else none))
update-make_update_example =
    update-make_update server_side client_side (omega arith) sides-Agrees activated

abbrev reading : Subscription
reading = record { role = "reader"; tag = 7; subscribe_to_roles = []; updates = [] }

abbrev writing : Subscription
writing = record { role = "writer"; tag = 8; subscribe_to_roles = []; updates = [] }

abbrev subscribed : Subscriptions
subscribed = ("port", reading) ∷ ("port", writing) ∷ ("other", reading) ∷ []

abbrev drop_message : StateUpdate
drop_message = record {
  service_name = "port";
  nonce = 3;
  instance_id = 9;
  body = drop_subscription_service "reader" 7;
}

-- Messages are numbers.
abbrev event_of : EventType → ℕ → ℕ → Event ℕ
event_of t tag message = record { event = t; tag = tag; message = message }

-- The responses come in the other order, and that of the second request not at all.
abbrev exchange : List (Step ℕ)
exchange =
    request (event_of (EventType.other 1) 0 10)
    ∷ issue (event_of (EventType.other 2) 0 11)
    ∷ request (event_of (EventType.other 1) 0 12)
    ∷ request (event_of (EventType.other 1) 0 13)
    ∷ receive (event_of EventType.response 44 14)
    ∷ receive (event_of EventType.response 41 15)
    ∷ []

abbrev nothing : ℕ → Option StateUpdate
nothing m = none

abbrev channels : Map Channel
channels =
    (9, record { is_open = true; written = [] })
    ∷ (10, record { is_open = false; written = [] })
    ∷ []

abbrev outcome : List AsyncEventStatus × Client ℕ
outcome = elim (run nothing exchange (create 40 channels)) [
  | none ↦ ([], create 40 channels)
  | some r ↦ r
]

run-answers_example :
    All (λ s. value_of s outcome.1 ≡ first_response s.request_id exchange) outcome.0
run-answers_example =
    run-answers nothing exchange 40 channels outcome (omega arith)
      (unfold run lookup assign create erase in refl)

route_state_update_lem_example :
    channel_in 9 (route_state_update 0 drop_message ((create {M = ℕ} 0 channels))) ≡ (
      if 0 == 0 || contains 0 ((create {M = ℕ} 0 channels)).instance_channels
      then some (
          receives drop_message
            (0 == 0 || 0 == 9)
            (lookup 9 ((create {M = ℕ} 0 channels)).instance_channels))
      else none)
route_state_update_lem_example = route_state_update_lem 0 9 drop_message (create {M = ℕ} 0 channels)
