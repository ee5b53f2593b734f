-- ===== src/ControlPlane/Server/Handlers.antt =====
-- The handlers of the server's events, and the histories of a server.
use Prim.Native.String.{String}
use mrc.Prelude.{ℕ, true, Option, none, some, List, [], ◌∷◌, ◌&&◌, if◌then◌else◌, all, map}
use mrc.ControlPlane.Tagged
use mrc.ControlPlane.Events.{ClientInstance, Event}
use mrc.ControlPlane.Issuer
use mrc.ControlPlane.Connections
use mrc.ControlPlane.Connections.{
  Reply, value, error, fatal, Request, add_stream, register_instances, activate_stream,
  lookup_workers,
}
use mrc.ControlPlane.Subscriptions.{
  Service, Expected, construct, has_role, compare_roles, register_instance, activate_instance,
  update_role, do_drop_tag, do_issue_update,
}
use mrc.ControlPlane.Server.{
  Message, request_state_update, unhandled_event, register_workers, activate_workers,
  lookup_worker_addresses, drop_worker, create_service, register_service, activate_service,
  drop_service, update_service, unreadable_worker_message, unreadable_service_message,
  unreadable_update, ClientEvent, Response, workers_registered, worker_addresses,
  service_registered, ack, Handled, silent, died, responds, Server, unary_response, reply_map,
  of_expected, find_service, put_service, unique, validate_instance_id, each_service, drop_instance,
  drop_stream,
}

-- What a handler answers, and the server afterwards.
abbrev pub Answer : Type 0
Answer = Reply Response × Server

unfoldable pub unary_register_workers : List Request → ClientEvent → Server → Answer
unfolding reply_map register_instances
unary_register_workers rs e s =
    let (r, m) = register_instances e.stream rs s.connections in
    (reply_map (λ (id, ids). workers_registered id ids) r, record s { connections = m })

unfoldable pub unary_activate_stream : List ℕ → ClientEvent → Server → Answer
unary_activate_stream ids e s =
    (value ack, record s { connections = activate_stream e.stream ids s.connections })

unfoldable pub unary_lookup_workers : List ℕ → Server → Answer
unary_lookup_workers ids s = (value (worker_addresses (lookup_workers ids s.connections)), s)

-- The instance is dropped from the services before the connections are asked for it.
unfoldable pub unary_drop_worker : ℕ → ClientEvent → Server → Answer
unfolding reply_map drop_instance
unary_drop_worker id e s =
    let (r, m) = Connections.drop_instance e.stream id s.connections in
    (reply_map (λ u. ack) r, record s { connections = m; services = drop_instance id s.services })

-- A block that `Tagged::next` refuses is an exception.
unfoldable pub new_service : String → List String → Server → Answer
new_service name roles s =
    let (block, n) = Tagged.next s.next_block in
    elim block [
      | none ↦ (fatal, record s { next_block = n })
      | some b ↦ (
        value ack,
        record s { next_block = n; services = (name, construct b name roles) ∷ s.services },
      )
    ]

unfoldable pub unary_create_subscription_service : String → List String → Server → Answer
unfolding unique find_service new_service
unary_create_subscription_service name roles s =
    if unique roles
    then elim (find_service name s.services) [
      | none ↦ new_service name roles s
      | some t ↦ (if compare_roles roles t.derived.roles then value ack else error, s)
    ]
    else (error, s)

-- The checks that registering and activating share; then one method of the service is called.
unfoldable pub with_service :
    {A : Type 0}
    → String
    → String
    → List String
    → ℕ
    → ClientEvent
    → (ClientInstance → Service → Expected A × Service)
    → (A → Response)
    → Server
    → Answer
unfolding unique validate_instance_id find_service put_service of_expected
with_service name role subscribe_to id e method answer s =
    if unique subscribe_to
    then elim (validate_instance_id id e s) [
      | none ↦ (error, s)
      | some i ↦ elim (find_service name s.services) [
        | none ↦ (error, s)
        | some t ↦
            (if has_role role t.derived.roles && all (λ n. has_role n t.derived.roles) subscribe_to
              then (let (r, t') = method i t in
                  (of_expected answer r, record s { services = put_service name t' s.services }))
              else (error, s))
      ]
    ]
    else (error, s)

unfoldable pub unary_register_subscription_service :
    String → String → List String → ℕ → ClientEvent → Server → Answer
unfolding with_service
unary_register_subscription_service name role subscribe_to id e s =
    with_service name role subscribe_to id e (λ i t. register_instance i role subscribe_to t)
      (λ tag. service_registered name role tag) s

unfoldable pub unary_activate_subscription_service :
    String → String → List String → ℕ → ℕ → ClientEvent → Server → Answer
unfolding with_service
unary_activate_subscription_service name role subscribe_to id tag e s =
    with_service name role subscribe_to id e (λ i t. activate_instance i role subscribe_to tag t)
      (λ u. ack) s

-- The invalid_argument of `drop_tag` is not caught before `do_handle_event`.
unfoldable pub unary_drop_subscription_service : String → ℕ → ℕ → ClientEvent → Server → Answer
unfolding validate_instance_id find_service put_service
unary_drop_subscription_service name id tag e s = elim (validate_instance_id id e s) [
  | none ↦ (error, s)
  | some i ↦ elim (find_service name s.services) [
    | none ↦ (error, s)
    | some t ↦
        (let (found, t') = Issuer.drop_tag do_drop_tag tag t in
          (
            if found then value ack else fatal,
            record s { services = put_service name t' s.services },
          ))
  ]
]

-- No response is written; an error is thrown by `do_handle_event`.
unfoldable pub event_update_subscription_service :
    String → String → List ℕ → ℕ → Server → Reply (Unit {0}) × Server
unfolding find_service put_service of_expected
event_update_subscription_service name role tags nonce s = elim (find_service name s.services) [
  | none ↦ (fatal, s)
  | some t ↦
      (let (r, t') = update_role name role tags nonce t in
        (of_expected (λ u. u) r, record s { services = put_service name t' s.services }))
]

abbrev pub respond : ClientEvent → Answer → Handled × Server
respond e (r, s) = (unary_response e r, s)

abbrev pub silently : Reply (Unit {0}) × Server → Handled × Server
silently (value u, s) = (silent, s)
silently (error, s) = (died, s)
silently (fatal, s) = (died, s)

abbrev pub handle_message : Message → ClientEvent → Server → Handled × Server
handle_message request_state_update e s = (silent, s)
handle_message unhandled_event e s = (died, s)
handle_message (register_workers rs) e s = respond e (unary_register_workers rs e s)
handle_message (activate_workers ids) e s = respond e (unary_activate_stream ids e s)
handle_message (lookup_worker_addresses ids) e s = respond e (unary_lookup_workers ids s)
handle_message (drop_worker id) e s = respond e (unary_drop_worker id e s)
handle_message (create_service name roles) e s =
    respond e (unary_create_subscription_service name roles s)
handle_message (register_service name role ns id) e s =
    respond e (unary_register_subscription_service name role ns id e s)
handle_message (activate_service name role ns id tag) e s =
    respond e (unary_activate_subscription_service name role ns id tag e s)
handle_message (drop_service name id tag) e s =
    respond e (unary_drop_subscription_service name id tag e s)
handle_message (update_service name role tags nonce) e s =
    silently (event_update_subscription_service name role tags nonce s)
handle_message unreadable_worker_message e s = (died, s)
handle_message unreadable_service_message e s = (unary_response e error, s)
handle_message unreadable_update e s = (died, s)

unfoldable pub handle_event : ClientEvent → Server → Handled × Server
unfolding drop_stream
handle_event e s =
    if e.ok
    then handle_message e.message e s
    else elim (drop_stream e.stream s) [ none ↦ (died, s) | some t ↦ (silent, t) ]

-- One round of the updater: the events of the connections, and the server afterwards; the services keep
-- the events that they write.
unfoldable pub issue_updates : Server → List Event × Server
unfolding each_service
issue_updates s =
    let (es, m) = Connections.issue s.connections in
    (
      es,
      record s {
        connections = m;
        services = each_service (λ t. record t { derived = do_issue_update t.derived }) s.services;
      },
    )

-- A stream that the acceptor adds.
-- `none`: the id is that of another stream, which is fatal.
unfoldable pub accept_stream : ℕ → Server → Option Server
unfolding add_stream
accept_stream id s =
    let (r, m) = add_stream id true s.connections in
    elim r [ value u ↦ some (record s { connections = m }) | error ↦ none | fatal ↦ none ]

unfoldable pub drop_streams : List ℕ → Server → Option Server
unfolding drop_stream
drop_streams [] s = some s
drop_streams (id ∷ ids) s = elim (drop_stream id s) [ none ↦ none | some t ↦ drop_streams ids t ]

unfoldable pub drop_all_streams : Server → Option Server
unfolding drop_streams
drop_all_streams s = drop_streams (map (λ e. e.0) s.connections.streams) s

-- What happens to a server, in order; `none` once it has died.
pub data Step : Type 0 where
  accepts : ℕ → Step
  handles : ClientEvent → Step
  issues drops_all : Step

abbrev pub alive : Handled × Server → Option Server
alive (died, s) = none
alive (silent, s) = some s
alive (responds r, s) = some s

unfoldable pub step : Step → Server → Option Server
unfolding accept_stream handle_event issue_updates drop_all_streams
step (accepts id) s = accept_stream id s
step (handles e) s = alive (handle_event e s)
step issues s = some (issue_updates s).1
step drops_all s = drop_all_streams s

unfoldable pub run : List Step → Server → Option Server
unfolding step
run [] s = some s
run (x ∷ xs) s = elim (step x s) [ none ↦ none | some t ↦ run xs t ]
