-- ===== src/ControlPlane/Subscriptions/Owed.antt =====
-- What a role owes for a tag: its latch until the drop request is written.
use Prim.Native.String.{String}
use mrc.Prelude.{
  ℕ, ◌+◌, ◌≤◌, ◌≡◌, refl, Bool, true, false, Option, none, some, List, [], ◌∷◌, ◌++◌, if◌then◌else◌,
  arith,
}
use mrc.Prelude.Maps.{lookup, contains, assign, is_some, lookup-assign}
use mrc.ControlPlane.Events.{ClientInstance, Event}
use mrc.ControlPlane.Versioned.{mark_as_modified}
use mrc.ControlPlane.Role
use mrc.ControlPlane.Role.{
  Role, add_member, add_subscriber, evaluate_latches, latch, detach, update_subscriber_nonce,
}
use mrc.ControlPlane.Role.Entries.{drops, evaluate_latches_lem}
use mrc.ControlPlane.Role.Latches.{
  Inv, Ready, Call, step, step-Inv, adds_member, adds_subscriber, drops_tag, reports, issues,
  detach-Ready, report-Ready,
}
use mrc.ControlPlane.Subscriptions.{Roles, Derived, at_role, each_role, report_each, at_role_events}

abbrev pub Everywhere : (Role → Type 0) → Roles → Type 0
Everywhere P [] = Unit {0}
Everywhere P ((n, r) ∷ rs) = P r × Everywhere P rs

-- 1 for a latched tag, 0 for another.
abbrev pub latched : ℕ → Role → ℕ
latched tag r = if is_some (lookup tag r.latched_members) then 1 else 0

-- In how many roles the tag is latched.
abbrev pub latched_in : ℕ → Roles → ℕ
latched_in tag [] = 0
latched_in tag ((n, r) ∷ rs) = latched tag r + latched_in tag rs

-- A call lets no latch go without a drop request.
abbrev pub Pays : ℕ → Role → List Event × Role → Type 0
Pays tag r (es, r') = latched tag r ≤ latched tag r' + drops tag es

abbrev pub PaysIn : ℕ → Roles → List Event × Roles → Type 0
PaysIn tag rs (es, rs') = latched_in tag rs ≤ latched_in tag rs' + drops tag es

pub drops-append :
    (tag : ℕ) (es fs : List Event) → drops tag (es ++ fs) ≡ drops tag es + drops tag fs
drops-append tag [] fs = omega arith
drops-append tag (e ∷ es) fs = ground (arith, drops-append tag es fs)

evaluate-Pays : (tag : ℕ) (r : Role) → Ready r → Pays tag r (evaluate_latches r)
evaluate-Pays tag r v = ground (arith, evaluate_latches_lem tag r v.sorted)

latch-latched :
    (tag t : ℕ) (o : Option ClientInstance) (r : Role) → latched tag r ≤ latched tag (latch t o r)
latch-latched tag t none r = omega arith
latch-latched tag t (some i) r =
    ground
      (arith, lookup-assign t tag ((mark_as_modified r.version).current_nonce, i) r.latched_members)

reported :
    (tag t nonce : ℕ) (b : Bool) (r : Role)
    → Inv r
    → Pays tag r (
        evaluate_latches
          (if b then record r { subscriber_nonces = assign t nonce r.subscriber_nonces } else r))
reported tag t nonce true r v = evaluate-Pays tag _ (report-Ready t nonce true r v)
reported tag t nonce false r v = evaluate-Pays tag _ (report-Ready t nonce false r v)

pub step-Pays : (tag : ℕ) (c : Call) (r : Role) → Inv r → Pays tag r (step c r)
unfolding step
step-Pays tag (adds_member t i) r v = unfold add_member in omega arith
step-Pays tag (adds_subscriber t i) r v = unfold add_subscriber in omega arith
step-Pays tag (drops_tag t) r v =
    let more : latched tag r ≤ latched tag (detach t r) =
      unfold detach in latch-latched tag t (lookup t r.members) _ in
    unfold Role.drop_tag in omega (arith, more, evaluate-Pays tag (detach t r) (detach-Ready t r v))
step-Pays tag (reports t nonce) r v =
    unfold update_subscriber_nonce in reported tag t nonce (contains t r.subscriber_nonces) r v
step-Pays tag issues r v = unfold Role.issue in omega arith

pub at_role-PaysIn :
    (tag : ℕ) (f : Role → Role) (role : String) (rs : Roles)
    → ((r : Role) → latched tag r ≡ latched tag (f r))
    → latched_in tag rs ≡ latched_in tag (at_role role f rs)
unfolding at_role
at_role-PaysIn tag f role [] k = refl
at_role-PaysIn tag f role ((n, r) ∷ rs) k = ground (arith, k r, at_role-PaysIn tag f role rs k)

pub each_role-PaysIn :
    (tag : ℕ) (f : Role → List Event × Role) (rs : Roles)
    → ((r : Role) → Inv r → Pays tag r (f r))
    → Everywhere Inv rs
    → PaysIn tag rs (each_role f rs)
unfolding each_role
each_role-PaysIn tag f [] k v = omega arith
each_role-PaysIn tag f ((n, r) ∷ rs) k v =
    omega
      (arith, k r v.0, each_role-PaysIn tag f rs k v.1, drops-append tag (f r).0 (each_role f rs).0)

report_each-Pays :
    (tag : ℕ) (ts : List ℕ) (nonce : ℕ) (r : Role) → Inv r → Pays tag r (report_each ts nonce r)
unfolding report_each step
report_each-Pays tag [] nonce r v = omega arith
report_each-Pays tag (t ∷ ts) nonce r v =
    let (es, r') = update_subscriber_nonce t nonce r in
    omega (
      arith,
      step-Pays tag (reports t nonce) r v,
      report_each-Pays tag ts nonce r' (step-Inv (reports t nonce) r v),
      drops-append tag es (report_each ts nonce r').0,
    )

pub at_role_events-PaysIn :
    (tag : ℕ) (role : String) (ts : List ℕ) (nonce : ℕ) (rs : Roles)
    → Everywhere Inv rs
    → PaysIn tag rs (at_role_events role (report_each ts nonce) rs)
unfolding at_role_events
at_role_events-PaysIn tag role ts nonce [] v = omega arith
at_role_events-PaysIn tag role ts nonce ((n, r) ∷ rs) v =
    ground
      (arith, report_each-Pays tag ts nonce r v.0, at_role_events-PaysIn tag role ts nonce rs v.1)

-- The latches of the tag, and the drop requests for it that the service has written.
abbrev pub owed : ℕ → Derived → ℕ
owed tag d = latched_in tag d.roles + drops tag d.sent
