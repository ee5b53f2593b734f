-- ===== src/ControlPlane/Role.antt =====
-- `Role` of cpp/mrc/src/internal/control_plane/server/subscription_manager.{hpp,cpp}: the members of a
-- role, the subscribers that are told of them, and the latches that hold a dropped member until every
-- subscriber has caught up. A method returns the events that it writes and the role afterwards. The
-- DCHECKs, which a release build leaves out, do not change the result.
pub mod Entries
pub mod Latches
pub mod Updates
use Prim.Native.String.{String}
use mrc.Prelude.{
  ℕ, Bool, true, false, Option, none, some, List, [], ◌∷◌, leb, if◌then◌else◌, select, all, elem,
  map,
}
use mrc.Prelude.Maps.{Map, lookup, contains, assign, erase}
use mrc.ControlPlane.Events.{
  ClientInstance, TaggedInstance, Body, update_subscription_service, drop_subscription_service,
  StateUpdate, Event,
}
use mrc.ControlPlane.Versioned.{VersionedState, initial, mark_as_modified, issue_update}

-- The nonce of the update that announced the drop, and the instance.
abbrev pub Latch : Type 0
Latch = ℕ × ClientInstance

pub record Role : Type 0 where
  pub service_name : String
  pub role_name : String
  pub version : VersionedState
  pub members : Map ClientInstance
  pub subscribers : Map ClientInstance
  pub subscriber_nonces : Map ℕ
  pub latched_members : Map Latch

unfoldable pub create : String → String → Role
create service_name role_name = record {
  service_name = service_name;
  role_name = role_name;
  version = initial;
  members = [];
  subscribers = [];
  subscriber_nonces = [];
  latched_members = [];
}

-- The event that `await_update` writes.
unfoldable pub await_update : ClientInstance → StateUpdate → Event
await_update instance_ update = record {
  stream = instance_.stream_writer;
  tag = instance_.id;
  message = update;
}

unfoldable pub add_member : ℕ → ClientInstance → Role → Role
unfolding mark_as_modified assign
add_member tag i r = record r {
  members = assign tag i r.members;
  version = mark_as_modified r.version;
}

unfoldable pub add_subscriber : ℕ → ClientInstance → Role → Role
unfolding assign
add_subscriber tag i r = record r {
  subscribers = assign tag i r.subscribers;
  subscriber_nonces = assign tag 0 r.subscriber_nonces;
}

-- Whether every subscriber has reported the latch's nonce or a later one.
abbrev pub is_ready : Map ℕ → ℕ × Latch → Bool
is_ready nonces (tag, (nonce, i)) = all (λ (t, n). leb nonce n) nonces

-- The drop request for a latched tag.
unfoldable pub drop_event : Role → ℕ × Latch → Event
unfolding await_update
drop_event r (tag, (nonce, i)) = await_update i (record {
  service_name = r.service_name;
  nonce = 0;
  instance_id = i.id;
  body = drop_subscription_service r.role_name tag;
})

-- The loop that erases the tags to remove.
unfoldable pub erase_each : List ℕ → Map Latch → Map Latch
unfolding erase
erase_each [] m = m
erase_each (t ∷ ts) m = erase_each ts (erase t m)

unfoldable pub evaluate_latches : Role → List Event × Role
unfolding drop_event erase_each
evaluate_latches r =
    let ready : List (ℕ × Latch) = select (is_ready r.subscriber_nonces) r.latched_members in
    (
      map (drop_event r) ready,
      record r { latched_members = erase_each (map (λ e. e.0) ready) r.latched_members },
    )

-- A dropped member stays latched under the nonce of the update that its absence makes.
abbrev pub latch : ℕ → Option ClientInstance → Role → Role
latch tag none r = r
latch tag (some i) r =
    let v : VersionedState = mark_as_modified r.version in
    record r {
      version = v;
      latched_members = assign tag (v.current_nonce, i) r.latched_members;
      members = erase tag r.members;
    }

-- `drop_tag` before its call of `evaluate_latches`.
unfoldable pub detach : ℕ → Role → Role
unfolding erase assign lookup mark_as_modified
detach tag r = latch tag (lookup tag r.members) (record r {
  subscribers = erase tag r.subscribers;
  subscriber_nonces = erase tag r.subscriber_nonces;
})

unfoldable pub drop_tag : ℕ → Role → List Event × Role
unfolding evaluate_latches detach
drop_tag tag r = evaluate_latches (detach tag r)

unfoldable pub update_subscriber_nonce : ℕ → ℕ → Role → List Event × Role
unfolding evaluate_latches contains assign
update_subscriber_nonce tag nonce r = evaluate_latches (
    if contains tag r.subscriber_nonces
    then record r { subscriber_nonces = assign tag nonce r.subscriber_nonces }
    else r)

-- The tags and instance ids of the members, in the order of the tags.
abbrev pub tagged_instances : Map ClientInstance → List TaggedInstance
tagged_instances = map (λ (tag, i). record { instance_id = i.id; tag = tag })

unfoldable pub make_update : Role → StateUpdate
make_update r = record {
  service_name = r.service_name;
  nonce = r.version.current_nonce;
  instance_id = 0;
  body = update_subscription_service r.role_name (tagged_instances r.members);
}

-- The loop of `do_issue_update` over the subscribers; `unique_instances` has been served.
unfoldable pub notify : List ℕ → Map ClientInstance → StateUpdate → List Event
unfolding await_update
notify unique_instances [] update = []
notify unique_instances ((tag, i) ∷ m) update = elim (elem i.id unique_instances) [
  | true ↦ notify unique_instances m update
  | false ↦ await_update i update ∷ notify (i.id ∷ unique_instances) m update
]

unfoldable pub issue : Role → List Event × Role
unfolding issue_update notify make_update
issue r =
    let (due, v) = issue_update r.version in
    let r' : Role = record r { version = v } in
    (if due then notify [] r'.subscribers (make_update r') else [], r')
