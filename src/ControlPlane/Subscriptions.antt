-- ===== src/ControlPlane/Subscriptions.antt =====
-- `SubscriptionService` of cpp/mrc/src/internal/control_plane/server/subscription_manager.{hpp,cpp}: a
-- TaggedIssuer whose derived state is its roles. `m_roles` is the list of its entries in the order of
-- the names, and `sent` holds the events that were written so far. A `std::set<std::string>` is the
-- list of its elements in order.
pub mod Owed
pub mod Roles
pub mod Membership
pub mod Leftover
use Prim.Native.String.{String}
use text.Mathlib.Text.{◌==◌ as str_eq}
use mrc.Prelude.{
  ℕ, Bool, true, false, Option, none, some, List, [], ◌∷◌, ◌++◌, ◌&&◌, ◌==◌, if◌then◌else◌, length,
  all, map,
}
use mrc.ControlPlane.Tagged.{is_issued_tag, fresh}
use mrc.ControlPlane.Issuer.{Issuer, register_instance_id}
use mrc.ControlPlane.Events.{ClientInstance, Event}
use mrc.ControlPlane.Role
use mrc.ControlPlane.Role.{Role, create, add_member, add_subscriber, update_subscriber_nonce, issue}

abbrev pub Roles : Type 0
Roles = List (String × Role)

pub record Derived : Type 0 where
  pub name : String
  pub roles : Roles
  pub sent : List Event

abbrev pub Service : Type 0
Service = Issuer Derived

-- `Expected<T>`: a failed MRC_CHECK gives an error. `overflow` is the exception of `next_tag`.
pub data Expected (A : Type 0) : Type 0 where
  value : A → Expected A
  check_failed overflow : Expected A

pub make_roles : String → List String → Roles
unfolding create
make_roles service [] = []
make_roles service (n ∷ ns) = (n, create service n) ∷ make_roles service ns

-- The constructor, with the block of tags that `Tagged::next` gives.
unfoldable pub construct : ℕ → String → List String → Service
unfolding make_roles fresh
construct block name roles = record {
  tagged = fresh block;
  instance_tags = [];
  derived = record { name = name; roles = make_roles name roles; sent = [] };
}

unfoldable pub has_role : String → Roles → Bool
has_role role [] = false
has_role role ((n, r) ∷ rs) = if str_eq n role then true else has_role role rs

pub compare_roles : List String → Roles → Bool
unfolding has_role
compare_roles roles rs = length rs == length roles && all (λ n. has_role n rs) roles

-- `get_role(name)` and a call of one of its methods.
pub at_role : String → (Role → Role) → Roles → Roles
at_role role f [] = []
at_role role f ((n, r) ∷ rs) = if str_eq n role then (n, f r) ∷ rs else (n, r) ∷ at_role role f rs

-- The MRC_CHECKs that `register_instance` and `activate_instance` begin with.
unfoldable pub valid_roles : String → List String → Roles → Bool
unfolding has_role
valid_roles role subscribe_to_roles rs =
    has_role role rs && all (λ n. has_role n rs) subscribe_to_roles

unfoldable pub register_instance :
    ClientInstance → String → List String → Service → Expected ℕ × Service
unfolding valid_roles
register_instance i role subscribe_to_roles s =
    if valid_roles role subscribe_to_roles s.derived.roles
    then (let (tag, s') = register_instance_id i.id s in
        elim tag [ none ↦ (overflow, s') | some t ↦ (value t, s') ])
    else (check_failed, s)

subscribe_each : List String → ℕ → ClientInstance → Roles → Roles
unfolding at_role add_subscriber
subscribe_each [] tag i rs = rs
subscribe_each (n ∷ ns) tag i rs = subscribe_each ns tag i (at_role n (add_subscriber tag i) rs)

unfoldable pub activate_instance :
    ClientInstance → String → List String → ℕ → Service → Expected (Unit {0}) × Service
unfolding valid_roles subscribe_each at_role add_member
activate_instance i role subscribe_to_roles tag s =
    if valid_roles role subscribe_to_roles s.derived.roles && is_issued_tag s.tagged tag
    then (
      value tt,
      record s {
        derived = record s.derived {
          roles =
              subscribe_each subscribe_to_roles tag i
                (at_role role (add_member tag i) s.derived.roles);
        };
      },
    )
    else (check_failed, s)

-- A call of a method of each role, in order: the events and the roles afterwards.
pub each_role : (Role → List Event × Role) → Roles → List Event × Roles
each_role f [] = ([], [])
each_role f ((n, r) ∷ rs) =
    let (es, r') = f r in let (fs, rs') = each_role f rs in (es ++ fs, (n, r') ∷ rs')

unfoldable pub on_roles : (Role → List Event × Role) → Derived → Derived
unfolding each_role
on_roles f d = let (es, rs) = each_role f d.roles in record d { roles = rs; sent = d.sent ++ es }

unfoldable pub do_drop_tag : ℕ → Derived → Derived
unfolding on_roles Role.drop_tag
do_drop_tag tag d = on_roles (Role.drop_tag tag) d

unfoldable pub do_issue_update : Derived → Derived
unfolding on_roles issue
do_issue_update d = on_roles issue d

-- The loop of `update_role` over the reported tags.
pub report_each : List ℕ → ℕ → Role → List Event × Role
unfolding update_subscriber_nonce
report_each [] nonce r = ([], r)
report_each (t ∷ ts) nonce r =
    let (es, r') = update_subscriber_nonce t nonce r in
    let (fs, r'') = report_each ts nonce r' in (es ++ fs, r'')

pub at_role_events : String → (Role → List Event × Role) → Roles → List Event × Roles
at_role_events role f [] = ([], [])
at_role_events role f ((n, r) ∷ rs) =
    let rest = at_role_events role f rs in
    let (es, r') = f r in if str_eq n role then (es, (n, r') ∷ rs) else (rest.0, (n, r) ∷ rest.1)

unfoldable pub update_role : String → String → List ℕ → ℕ → Service → Expected (Unit {0}) × Service
unfolding has_role at_role_events report_each
update_role service_name role tags nonce s =
    if str_eq service_name s.derived.name && has_role role s.derived.roles
    then (
      value tt,
      (let (es, rs) = at_role_events role (report_each tags nonce) s.derived.roles in
          record s { derived = record s.derived { roles = rs; sent = s.derived.sent ++ es } }),
    )
    else (check_failed, s)
