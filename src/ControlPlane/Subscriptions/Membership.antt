-- ===== src/ControlPlane/Subscriptions/Membership.antt =====
-- What activation and dropping do to the membership of the roles.
use Prim.Native.String.{String}
use text.Mathlib.Text.{◌==◌ as str_eq}
use text.Mathlib.TextEquality.{eq_iff}
use mrc.Prelude.{
  ℕ, ◌≡◌, refl, ap, Bool, true, false, ◌&&◌, Option, none, some, List, [], ◌∷◌, ◌==◌, if◌then◌else◌,
  All, arith, ◌∙◌,
}
use mrc.Prelude.Maps.{lookup, erase, lookup-erase}
use mrc.ControlPlane.Tagged.{is_issued_tag}
use mrc.ControlPlane.Events.{ClientInstance}
use mrc.ControlPlane.Issuer.{Entry, of_instance, drop_each, drop_instance}
use mrc.ControlPlane.Role
use mrc.ControlPlane.Role.{
  Role, create, add_member, add_subscriber, detach, latch, evaluate_latches,
  update_subscriber_nonce, issue,
}
use mrc.ControlPlane.Subscriptions.{
  Roles, Derived, Service, value, check_failed, at_role, valid_roles, subscribe_each,
  activate_instance, do_drop_tag,
}
use mrc.ControlPlane.Subscriptions.Owed.{Everywhere}
use mrc.ControlPlane.Subscriptions.Roles.{each_role-Everywhere}

-- Neither a member nor a subscriber has the tag.
abbrev pub Absent : ℕ → Role → Type 0
Absent tag r = (lookup tag r.members ≡ none) × (lookup tag r.subscribers ≡ none)

latch_members :
    (tag j : ℕ) (o : Option ClientInstance) (r : Role)
    → o ≡ lookup tag r.members
    → let d = latch tag o r in
      (lookup j d.members ≡ (if tag == j then none else lookup j r.members))
      × (d.subscribers ≡ r.subscribers)
latch_members tag j none r e = (ground arith, refl)
latch_members tag j (some i) r e = (lookup-erase tag j r.members, refl)

pub drop_tag-lookup :
    (tag j : ℕ) (r : Role)
    → let d = (Role.drop_tag tag r).1 in
      (lookup j d.members ≡ (if tag == j then none else lookup j r.members))
      × (lookup j d.subscribers ≡ (if tag == j then none else lookup j r.subscribers))
unfolding Role.drop_tag detach evaluate_latches
drop_tag-lookup tag j r =
    let t : Role = record r {
      subscribers = erase tag r.subscribers;
      subscriber_nonces = erase tag r.subscriber_nonces;
    } in
    let (m, s) = latch_members tag j (lookup tag r.members) t refl in
    (m, ap (lookup j) s ∙ lookup-erase tag j r.subscribers)

drop-Absent : (tag : ℕ) (r : Role) → Absent tag (Role.drop_tag tag r).1
drop-Absent tag r = ground (arith, drop_tag-lookup tag tag r)

drop_keeps-Absent : (tag j : ℕ) (r : Role) → Absent j r → Absent j (Role.drop_tag tag r).1
drop_keeps-Absent tag j r a = ground (arith, drop_tag-lookup tag j r)

Everywhere-any : (rs : Roles) → Everywhere (λ r. Unit {0}) rs
Everywhere-any [] = tt
Everywhere-any ((n, r) ∷ rs) = (tt, Everywhere-any rs)

drop_each_keeps :
    (j : ℕ) (m : List Entry) (d : Derived)
    → Everywhere (Absent j) d.roles
    → Everywhere (Absent j) (drop_each do_drop_tag m d).roles
unfolding drop_each do_drop_tag
drop_each_keeps j [] d a = a
drop_each_keeps j ((i, t) ∷ m) d a =
    drop_each_keeps j m (do_drop_tag t d) (
      each_role-Everywhere (Absent j) (Absent j) (Role.drop_tag t) d.roles (drop_keeps-Absent t j)
        a)

drop_each-Absent :
    (m : List Entry) (d : Derived)
    → All (λ (i, t). Everywhere (Absent t) (drop_each do_drop_tag m d).roles) m
unfolding drop_each do_drop_tag
drop_each-Absent [] d = tt
drop_each-Absent ((i, t) ∷ m) d = (
  drop_each_keeps t m (do_drop_tag t d) (
      each_role-Everywhere (λ r. Unit {0}) (Absent t) (Role.drop_tag t) d.roles
        (λ r u. drop-Absent t r) (Everywhere-any d.roles)),
  drop_each-Absent m (do_drop_tag t d),
)

-- When an instance is dropped, none of the tags that it held is left in any role of the service, as
-- a member or as a subscriber.
pub drop_instance-Absent :
    (id : ℕ) (s : Service)
    → All
        (λ (i, t). Everywhere (Absent t) (drop_instance do_drop_tag id s).derived.roles)
        (of_instance id s.instance_tags)
unfolding drop_instance
drop_instance-Absent id s = drop_each-Absent (of_instance id s.instance_tags) s.derived

-- The role of a name, and a change of it.
abbrev pub role_of : String → Roles → Option Role
role_of role [] = none
role_of role ((n, r) ∷ rs) = if str_eq n role then some r else role_of role rs

abbrev pub change : (Role → Role) → Option Role → Option Role
change f none = none
change f (some r) = some (f r)

abbrev pub named : String → List String → Bool
named role [] = false
named role (n ∷ ns) = if str_eq n role then true else named role ns

-- The elements of a `std::set` differ.
abbrev pub Unique : List String → Type 0
Unique [] = Unit {0}
Unique (n ∷ ns) = (named n ns ≡ false) × Unique ns

role_of-at_role :
    (n m : String) (f : Role → Role) (rs : Roles)
    → role_of n (at_role m f rs) ≡ (if str_eq m n then change f (role_of n rs) else role_of n rs)
unfolding at_role
role_of-at_role n m f [] = ground arith
role_of-at_role n m f ((k, r) ∷ rs) =
    ground (arith, eq_iff k m, eq_iff k n, eq_iff m n, role_of-at_role n m f rs)

role_of-subscribe_each :
    (n : String) (ns : List String) (tag : ℕ) (i : ClientInstance) (rs : Roles)
    → Unique ns
    → role_of n (subscribe_each ns tag i rs)
      ≡ (if named n ns then change (add_subscriber tag i) (role_of n rs) else role_of n rs)
unfolding subscribe_each
role_of-subscribe_each n [] tag i rs u = refl
role_of-subscribe_each n (m ∷ ns) tag i rs u = ground (
  arith,
  eq_iff m n,
  role_of-subscribe_each n ns tag i (at_role m (add_subscriber tag i) rs) u.1,
  role_of-at_role n m (add_subscriber tag i) rs,
)

-- An activation with distinct roles to subscribe to that passes the checks makes the instance a
-- member of its role and a subscriber of each role that it names, and touches no other role,
-- neither the tags nor the events. One that does not pass reports the failed check and changes
-- nothing.
pub activate_instance_lem :
    (i : ClientInstance) (role : String) (ns : List String) (tag : ℕ) (s : Service)
    → Unique ns
    → let (e, s') = activate_instance i role ns tag s in
      let passes = valid_roles role ns s.derived.roles && is_issued_tag s.tagged tag in
      (passes ≡ false → (e ≡ check_failed) × (s' ≡ s))
      × (passes ≡ true
          → (e ≡ value tt)
            × (s'.tagged ≡ s.tagged)
            × (s'.instance_tags ≡ s.instance_tags)
            × (s'.derived.sent ≡ s.derived.sent)
            × ((n : String)
                → let r = role_of n s.derived.roles in
                  let r' = if str_eq role n then change (add_member tag i) r else r in
                  role_of n s'.derived.roles
                  ≡ (if named n ns then change (add_subscriber tag i) r' else r')))
unfolding activate_instance
activate_instance_lem i role ns tag s u = (
  λ e. rw e (refl, refl),
  λ e. rw e (
    refl,
    refl,
    refl,
    refl,
    λ n.
        role_of-subscribe_each n ns tag i (at_role role (add_member tag i) s.derived.roles) u
        ∙ ap (λ r. if named n ns then change (add_subscriber tag i) r else r)
            (role_of-at_role n role (add_member tag i) s.derived.roles),
  ),
)
