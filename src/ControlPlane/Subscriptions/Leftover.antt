-- ===== src/ControlPlane/Subscriptions/Leftover.antt =====
-- Activation takes any tag that has been issued, also one that nobody holds any more.
use Prim.Native.String.{String}
use text.Mathlib.TextPositions.{eq_refl}
use mrc.Prelude.{
  ℕ, ◌≡◌, ◌≢◌, refl, ap, ◌∙◌, Bool, true, false, ◌&&◌, Option, none, some, List, [], ◌∷◌,
  if◌then◌else◌, arith,
}
use mrc.Prelude.Maps.{lookup, lookup-assign}
use mrc.ControlPlane.Tagged.{is_issued_tag}
use mrc.ControlPlane.Events.{ClientInstance}
use mrc.ControlPlane.Issuer.{Entry, of_instance, drop_each, drop_instance}
use mrc.ControlPlane.Issuer.Entries.{uses}
use mrc.ControlPlane.Role
use mrc.ControlPlane.Role.{Role, add_member, add_subscriber}
use mrc.ControlPlane.Subscriptions.{
  Roles, Derived, Service, valid_roles, activate_instance, each_role, do_drop_tag,
}
use mrc.ControlPlane.Subscriptions.Membership.{
  Unique, role_of, change, named, activate_instance_lem, drop_tag-lookup,
}

-- What a role knows of a tag's member; none in a role that does not exist.
abbrev pub member_of : ℕ → Option Role → Option ClientInstance
member_of tag none = none
member_of tag (some r) = lookup tag r.members

abbrev pub member_at : ℕ → String → Roles → Option ClientInstance
member_at tag role rs = member_of tag (role_of role rs)

member-drop_tag :
    (tag other : ℕ) (role : String) (rs : Roles)
    → other ≢ tag
    → member_at tag role (each_role (Role.drop_tag other) rs).1 ≡ member_at tag role rs
unfolding each_role
member-drop_tag tag other role [] ne = refl
member-drop_tag tag other role ((n, r) ∷ rs) ne =
    ground (arith, ne, (drop_tag-lookup other tag r).0, member-drop_tag tag other role rs ne)

member-drop_each :
    (tag : ℕ) (role : String) (m : List Entry) (d : Derived)
    → uses tag m ≡ 0
    → member_at tag role (drop_each do_drop_tag m d).roles ≡ member_at tag role d.roles
unfolding drop_each do_drop_tag
member-drop_each tag role [] d u = refl
member-drop_each tag role ((j, t) ∷ m) d u =
    member-drop_each tag role m (do_drop_tag t d) (ground (arith, u))
    ∙ member-drop_tag tag t role d.roles (λ e. ground (arith, u, e))

uses-of_instance : (id tag : ℕ) (m : List Entry) → uses tag m ≡ 0 → uses tag (of_instance id m) ≡ 0
uses-of_instance id tag [] u = refl
uses-of_instance id tag ((j, t) ∷ m) u = ground (arith, u, uses-of_instance id tag m)

member-added :
    (tag : ℕ) (i : ClientInstance) (r : Role) (b : Bool)
    → let r' = change (add_member tag i) (some r) in
      member_of tag (if b then change (add_subscriber tag i) r' else r') ≡ some i
unfolding add_member add_subscriber
member-added tag i r true = ground (arith, lookup-assign tag tag i r.members)
member-added tag i r false = ground (arith, lookup-assign tag tag i r.members)

-- An activation whose tag was issued and is registered for no instance makes the instance a member
-- under that tag, and dropping the instance does not remove it: its role lists a member that no
-- instance stands for.
pub unheld_tag_stays :
    (i : ClientInstance) (role : String) (r : Role) (ns : List String) (tag : ℕ) (s : Service)
    → Unique ns
    → valid_roles role ns s.derived.roles && is_issued_tag s.tagged tag ≡ true
    → role_of role s.derived.roles ≡ some r
    → uses tag s.instance_tags ≡ 0
    → member_at tag role
        (drop_instance do_drop_tag i.id (activate_instance i role ns tag s).1).derived.roles
      ≡ some i
unfolding drop_instance
unheld_tag_stays i role r ns tag s u ok here unheld =
    let s1 : Service = (activate_instance i role ns tag s).1 in
    let (_, _, same, _, roles) = (activate_instance_lem i role ns tag s u).1 ok in
    let unused : uses tag s1.instance_tags ≡ 0 = rw same unheld in
    member-drop_each tag role (of_instance i.id s1.instance_tags) s1.derived
      (uses-of_instance i.id tag s1.instance_tags unused)
    ∙ ap (member_of tag) (roles role)
    ∙ rw (here, eq_refl role) (member-added tag i r (named role ns))
