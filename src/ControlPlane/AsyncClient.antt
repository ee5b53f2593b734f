-- ===== src/ControlPlane/AsyncClient.antt =====
-- cpp/mrc/src/internal/control_plane/client.cpp: the requests that a client writes on its stream, the
-- promises of their responses, and the way of the server's updates to the instances. A message is a value
-- of any type; what protobuf unpacks from it is a parameter. A promise is the number of those made before.
pub mod Promises
pub mod Received
pub mod Answers
pub mod Routing
use mrc.Prelude.{
  ℕ, zero, suc, ◌+◌, ◌%◌, ◌^◌, ◌≡◌, Bool, true, false, Option, none, some, List, [], ◌∷◌, ◌++◌, ltb,
  ◌==◌, if◌then◌else◌,
}
use mrc.Prelude.Maps.{Map, lookup, assign, erase}
use mrc.ControlPlane.Events.{
  StateUpdate, Body, connections, update_subscription_service, drop_subscription_service,
}

pub data EventType : Type 0 where
  response server_state_update client_event_request_state_update : EventType
  -- Any other type.
  other : ℕ → EventType

pub record Event (M : Type 0) : Type 0 where
  pub event : EventType
  pub tag : ℕ
  pub message : M

abbrev pub has_connections : Body → Bool
has_connections (connections ts) = true
has_connections (update_subscription_service role ts) = false
has_connections (drop_subscription_service role tag) = false

pub data State : Type 0 where
  disconnected failed_to_connect connected registering_workers operational : State

abbrev pub order : State → ℕ
order State.disconnected = 0
order State.failed_to_connect = 1
order State.connected = 2
order State.registering_workers = 3
order State.operational = 4

pub record AsyncEventStatus : Type 0 where
  pub request_id : ℕ
  -- The promise of its future, if the future is valid.
  pub future : Option ℕ

-- The channel of an instance, with the updates that have been written to it.
pub record Channel : Type 0 where
  pub is_open : Bool
  pub written : List StateUpdate

pub record Client (M : Type 0) : Type 0 where
  pub state : State
  pub request_id_counter : ℕ
  pub promises : ℕ
  pub pending_events : Map ℕ
  pub values : Map (Event M)
  pub written : List (Event M)
  pub connections_update_channel : Channel
  pub instance_channels : Map Channel

-- `undefined` is a use of the handle that `extract` gives for a key that is not there.
pub data Handled (M : Type 0) : Type 0 where
  died undefined : Handled M
  handled : Client M → Handled M

-- A write to a closed channel is not taken.
unfoldable pub await_write : StateUpdate → Channel → Channel
await_write u c = if c.is_open then record c { written = c.written ++ (u ∷ []) } else c

unfoldable pub write_all : StateUpdate → Map Channel → Map Channel
unfolding await_write
write_all u [] = []
write_all u ((id, c) ∷ m) = (id, await_write u c) ∷ write_all u m

module _ {M : Type 0} where
  -- The counter of the ids is one for the whole process: a new client finds it where others left it.
  unfoldable pub create : ℕ → Map Channel → Client M
  create counter channels = record {
    state = State.disconnected;
    request_id_counter = counter;
    promises = 0;
    pending_events = [];
    values = [];
    written = [];
    connections_update_channel = record { is_open = true; written = [] };
    instance_channels = channels;
  }

  -- `none` is a failed check.
  unfoldable pub forward_state : State → Client M → Option (Client M)
  forward_state s c = if ltb (order c.state) (order s) then some (record c { state = s }) else none

  -- The end of `do_service_start`, with whether there is a writer.
  unfoldable pub connect : Bool → Client M → Option (Client M)
  unfolding forward_state
  connect has_writer c = if has_writer then forward_state State.connected c else none

  -- `register` is what the manager of the connections does.
  unfoldable pub register_ucx_addresses :
      (Client M → Option (Client M)) → Client M → Option (Client M)
  unfolding forward_state
  register_ucx_addresses register c = elim (forward_state State.registering_workers c) [
    | none ↦ none
    | some c1 ↦ elim (register c1) [ none ↦ none | some c2 ↦ forward_state State.operational c2 ]
  ]

  unfoldable pub write_event : Event M → Bool → Client M → AsyncEventStatus × Client M
  write_event e await_response c =
      let id = (c.request_id_counter + 1) % 2 ^ 64 in
      if await_response
      then (
        record { request_id = id; future = some c.promises },
        record c {
          request_id_counter = id;
          promises = c.promises + 1;
          pending_events = assign id c.promises c.pending_events;
          written = c.written ++ (record e { tag = id } ∷ []);
        },
      )
      else (
        record { request_id = id; future = none },
        record c { request_id_counter = id; written = c.written ++ (record e { tag = 0 } ∷ []) },
      )

  unfoldable pub async_unary : EventType → M → Client M → AsyncEventStatus × Client M
  unfolding write_event
  async_unary t request c = write_event (record { event = t; tag = 0; message = request }) true c

  unfoldable pub issue_event : EventType → M → Client M → AsyncEventStatus × Client M
  unfolding write_event
  issue_event t message c = write_event (record { event = t; tag = 0; message = message }) false c

  -- `empty` is the message of an event that has none.
  unfoldable pub request_update : M → Client M → AsyncEventStatus × Client M
  unfolding issue_event
  request_update empty c = issue_event EventType.client_event_request_state_update empty c

  -- `none` is a failed check.
  unfoldable pub route_state_update : ℕ → StateUpdate → Client M → Option (Client M)
  unfolding write_all await_write
  route_state_update tag u c =
      if tag == 0
      then some (record c { instance_channels = write_all u c.instance_channels })
      else elim (lookup tag c.instance_channels) [
        | none ↦ none
        | some i ↦
            some (record c { instance_channels = assign tag (await_write u i) c.instance_channels })
      ]

  unfoldable pub set_value : Event M → Client M → Handled M
  set_value e c = elim (lookup e.tag c.pending_events) [
    | none ↦ Handled.undefined
    | some p ↦
        Handled.handled
          (record c { pending_events = erase e.tag c.pending_events; values = assign p e c.values })
  ]

  unfoldable pub handle_update : StateUpdate → ℕ → Client M → Handled M
  unfolding await_write route_state_update
  handle_update u tag c =
      if has_connections u.body
      then if c.connections_update_channel.is_open
        then Handled.handled
            (record c { connections_update_channel = await_write u c.connections_update_channel })
        else Handled.died
      else elim (route_state_update tag u c) [ none ↦ Handled.died | some c' ↦ Handled.handled c' ]

  unfoldable pub handle_event_of :
      EventType → (M → Option StateUpdate) → Event M → Client M → Handled M
  unfolding set_value handle_update
  handle_event_of EventType.response unpack e c =
      if e.tag == 0 then Handled.handled c else set_value e c
  handle_event_of EventType.server_state_update unpack e c = elim (unpack e.message) [
    | none ↦ Handled.died
    | some u ↦ handle_update u e.tag c
  ]
  handle_event_of EventType.client_event_request_state_update unpack e c = Handled.died
  handle_event_of (EventType.other n) unpack e c = Handled.died

  -- The handler of the events, with what is unpacked from the message of an update.
  unfoldable pub do_handle_event : (M → Option StateUpdate) → Event M → Client M → Handled M
  unfolding handle_event_of
  do_handle_event unpack e c = handle_event_of e.event unpack e c

  -- The values of a future: nothing yet, or the end of `await_response`.
  unfoldable pub value_of : AsyncEventStatus → Client M → Option (Event M)
  value_of s c = elim s.future [ none ↦ none | some p ↦ lookup p c.values ]

-- The ends of `await_response`: both exceptions, the error of the server, and the response. `waiting` is
-- not an end.
pub data Awaited (R : Type 0) : Type 0 where
  not_expected wrong_message waiting : Awaited R
  failed : ℕ → Awaited R
  answered : R → Awaited R

-- What a message is: the text of an error, or the response when it unpacks.
pub record Unpacking (M R : Type 0) : Type 0 where
  pub error : M → Option ℕ
  pub unpack_to : M → Option R

module _ {M R : Type 0} (u : Unpacking M R) where
  unfoldable pub unpack_response : M → Awaited R
  unpack_response m = elim (u.error m) [
    | some text ↦ Awaited.failed text
    | none ↦ elim (u.unpack_to m) [ none ↦ Awaited.wrong_message | some r ↦ Awaited.answered r ]
  ]

  -- The status has no future once it has been awaited.
  unfoldable pub await_response : AsyncEventStatus → Client M → Awaited R × AsyncEventStatus
  unfolding unpack_response
  await_response s c = elim s.future [
    | none ↦ (Awaited.not_expected, s)
    | some p ↦ elim (lookup p c.values) [
      | none ↦ (Awaited.waiting, s)
      | some e ↦ (unpack_response e.message, record s { future = none })
    ]
  ]
