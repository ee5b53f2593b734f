-- ===== src/ControlPlane/Instances.antt =====
-- The clients' side of the subscription services: `Instance` of
-- cpp/mrc/src/internal/control_plane/client/instance.{hpp,cpp} and the RoleUpdater of
-- client/subscription_service.cpp. What derived classes do with an update is left open: a service keeps
-- the updates that it is given, in order.
use Prim.Native.String.{String}
use text.Mathlib.Text.{◌==◌ as str_eq}
use text.Mathlib.TextPositions.{eq_refl}
use mrc.Prelude.{
  ℕ, ◌≡◌, refl, Bool, true, false, ◌&&◌, Option, none, some, List, [], ◌∷◌, ◌++◌, ◌==◌,
  if◌then◌else◌, arith,
}
use mrc.Prelude.Maps.{Map, assign}
use mrc.ControlPlane.Events.{
  TaggedInstance, StateUpdate, connections, update_subscription_service, drop_subscription_service,
}
use mrc.ControlPlane.Server.{Message, update_service}

-- `updates` has the role and the instances by tag of each call of `update_tagged_instances`.
pub record Subscription : Type 0 where
  pub role : String
  pub tag : ℕ
  pub subscribe_to_roles : List String
  pub updates : List (String × Map ℕ)

-- The multimap `m_subscription_services`; those of one name are in the order of their insertion.
abbrev pub Subscriptions : Type 0
Subscriptions = List (String × Subscription)

unfoldable pub register_subscription_service : String → Subscription → Subscriptions → Subscriptions
register_subscription_service service_name s ss = ss ++ ((service_name, s) ∷ [])

unfoldable pub subscribes : String → List String → Bool
subscribes role [] = false
subscribes role (r ∷ rs) = if str_eq r role then true else subscribes role rs

unfoldable pub instances_by_tag : List TaggedInstance → Map ℕ → Map ℕ
unfolding assign
instances_by_tag [] m = m
instances_by_tag (t ∷ ts) m = instances_by_tag ts (assign t.tag t.instance_id m)

-- The loop over the services of the name: their tags, if they subscribe, and the services afterwards.
unfoldable pub update_each : String → String → Map ℕ → Subscriptions → List ℕ × Subscriptions
unfolding subscribes
update_each service_name role instances [] = ([], [])
update_each service_name role instances ((n, s) ∷ ss) =
    let (tags, rest) = update_each service_name role instances ss in
    if str_eq n service_name && subscribes role s.subscribe_to_roles
    then (s.tag ∷ tags, (n, record s { updates = s.updates ++ ((role, instances) ∷ []) }) ∷ rest)
    else (tags, (n, s) ∷ rest)

-- The event that is issued, if any service was updated.
unfoldable pub do_update_subscription_state :
    String → ℕ → String → List TaggedInstance → Subscriptions → Option Message × Subscriptions
unfolding update_each instances_by_tag
do_update_subscription_state service_name nonce role ts ss =
    let (tags, rest) = update_each service_name role (instances_by_tag ts []) ss in
    (
      elim tags [
        | [] ↦ none
        | tag ∷ more ↦ some (update_service service_name role (tag ∷ more) nonce)
      ],
      rest,
    )

-- The loop over the services of a name that are to be dropped: the tags of those that are torn down, and
-- the services that stay. The test of the code compares each service with itself, as the variable of
-- the loop hides the message's.
unfoldable pub drop_from : String → Subscriptions → List ℕ × Subscriptions
drop_from service_name [] = ([], [])
drop_from service_name ((n, s) ∷ ss) =
    let (tags, rest) = drop_from service_name ss in
    if str_eq n service_name && (str_eq s.role s.role && (s.tag == s.tag))
    then (s.tag ∷ tags, rest)
    else (tags, (n, s) ∷ rest)

-- The event that is issued, the tags of the services that are torn down, and the services afterwards.
unfoldable pub do_handle_state_update :
    StateUpdate → Subscriptions → Option Message × List ℕ × Subscriptions
unfolding do_update_subscription_state drop_from
do_handle_state_update update ss = elim update.body [
  | connections ts ↦ (none, [], ss)
  | update_subscription_service role ts ↦
      (let (event, rest) =
          do_update_subscription_state update.service_name update.nonce role ts ss in
        (event, [], rest))
  | drop_subscription_service role tag ↦
      (let (tags, rest) = drop_from update.service_name ss in (none, tags, rest))
]

abbrev pub of_name : String → Subscriptions → List ℕ
of_name service_name [] = []
of_name service_name ((n, s) ∷ ss) =
    if str_eq n service_name then s.tag ∷ of_name service_name ss else of_name service_name ss

abbrev pub of_other_names : String → Subscriptions → Subscriptions
of_other_names service_name [] = []
of_other_names service_name ((n, s) ∷ ss) =
    if str_eq n service_name
    then of_other_names service_name ss
    else (n, s) ∷ of_other_names service_name ss

drop_from_lem :
    (service_name : String) (ss : Subscriptions)
    → drop_from service_name ss ≡ (of_name service_name ss, of_other_names service_name ss)
unfolding drop_from
drop_from_lem service_name [] = refl
drop_from_lem service_name ((n, s) ∷ ss) =
    ground (arith, eq_refl s.role, drop_from_lem service_name ss)

-- A message that drops one role and tag of a service makes the client tear down all its subscriptions
-- of that service, whatever their roles and tags are.
pub drop_subscription_service_lem :
    (u : StateUpdate) (role : String) (tag : ℕ) (ss : Subscriptions)
    → u.body ≡ drop_subscription_service role tag
    → do_handle_state_update u ss
      ≡ (none, of_name u.service_name ss, of_other_names u.service_name ss)
unfolding do_handle_state_update
drop_subscription_service_lem u role tag ss e =
    rw (e, do_handle_state_update) (rw (drop_from_lem u.service_name ss) refl)
