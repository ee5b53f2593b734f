-- ===== src/ControlPlane/Subscriptions/Roles.antt =====
-- Every operation of the service keeps the fences of all its roles.
use Prim.Native.String.{String}
use mrc.Prelude.{ℕ, refl, ◌+◌, ◌≤◌, ◌≡◌, ◌∙◌, List, [], ◌∷◌, arith}
use mrc.ControlPlane.Events.{ClientInstance, Event}
use mrc.ControlPlane.Issuer.{
  Entry, of_instance, register_instance_id, drop_each, drop_instance, drop_tag, drop_all,
}
use mrc.ControlPlane.Role
use mrc.ControlPlane.Role.{Role, create, add_member, add_subscriber, update_subscriber_nonce, issue}
use mrc.ControlPlane.Role.Entries.{drops as drops_for}
use mrc.ControlPlane.Role.Latches.{
  Inv, step, step-Inv, adds_member, adds_subscriber, drops_tag, reports, issues, create-Inv,
}
use mrc.ControlPlane.Subscriptions.Owed.{
  Everywhere, owed, latched_in, drops-append, step-Pays, at_role-PaysIn, each_role-PaysIn,
  at_role_events-PaysIn,
}
use mrc.ControlPlane.Subscriptions.{
  Roles, Derived, Service, make_roles, construct, at_role, register_instance, subscribe_each,
  activate_instance, each_role, do_drop_tag, do_issue_update, report_each, at_role_events,
  update_role, on_roles,
}

pub at_role-Everywhere :
    (P : Role → Type 0) (f : Role → Role) (role : String) (rs : Roles)
    → ((r : Role) → P r → P (f r))
    → Everywhere P rs
    → Everywhere P (at_role role f rs)
unfolding at_role
at_role-Everywhere P f role [] k v = tt
at_role-Everywhere P f role ((n, r) ∷ rs) k v =
    ground (arith, k r v.0, at_role-Everywhere P f role rs k v.1)

pub each_role-Everywhere :
    (P Q : Role → Type 0) (f : Role → List Event × Role) (rs : Roles)
    → ((r : Role) → P r → Q (f r).1)
    → Everywhere P rs
    → Everywhere Q (each_role f rs).1
unfolding each_role
each_role-Everywhere P Q f [] k v = tt
each_role-Everywhere P Q f ((n, r) ∷ rs) k v = (k r v.0, each_role-Everywhere P Q f rs k v.1)

at_role_events-Everywhere :
    (P : Role → Type 0) (f : Role → List Event × Role) (role : String) (rs : Roles)
    → ((r : Role) → P r → P (f r).1)
    → Everywhere P rs
    → Everywhere P (at_role_events role f rs).1
unfolding at_role_events
at_role_events-Everywhere P f role [] k v = tt
at_role_events-Everywhere P f role ((n, r) ∷ rs) k v =
    ground (arith, k r v.0, at_role_events-Everywhere P f role rs k v.1)

report_each-Inv : (ts : List ℕ) (nonce : ℕ) (r : Role) → Inv r → Inv (report_each ts nonce r).1
unfolding report_each step
report_each-Inv [] nonce r v = v
report_each-Inv (t ∷ ts) nonce r v =
    report_each-Inv ts nonce (update_subscriber_nonce t nonce r).1 (step-Inv (reports t nonce) r v)

subscribe_each-Inv :
    (ns : List String) (tag : ℕ) (i : ClientInstance) (rs : Roles)
    → Everywhere Inv rs
    → Everywhere Inv (subscribe_each ns tag i rs)
unfolding subscribe_each step
subscribe_each-Inv [] tag i rs v = v
subscribe_each-Inv (n ∷ ns) tag i rs v =
    subscribe_each-Inv ns tag i (at_role n (add_subscriber tag i) rs)
      (at_role-Everywhere Inv (add_subscriber tag i) n rs (step-Inv (adds_subscriber tag i)) v)

do_drop_tag-Inv :
    (tag : ℕ) (d : Derived) → Everywhere Inv d.roles → Everywhere Inv (do_drop_tag tag d).roles
unfolding do_drop_tag step
do_drop_tag-Inv tag d v =
    each_role-Everywhere Inv Inv (Role.drop_tag tag) d.roles (step-Inv (drops_tag tag)) v

drop_each-Inv :
    (m : List Entry) (d : Derived)
    → Everywhere Inv d.roles
    → Everywhere Inv (drop_each do_drop_tag m d).roles
unfolding drop_each
drop_each-Inv [] d v = v
drop_each-Inv ((j, t) ∷ m) d v = drop_each-Inv m (do_drop_tag t d) (do_drop_tag-Inv t d v)

-- The calls of the service.
pub data Call : Type 0 where
  registers : ClientInstance → String → List String → Call
  activates : ClientInstance → String → List String → ℕ → Call
  updates : String → String → List ℕ → ℕ → Call
  drops_instance : ℕ → Call
  drops : ℕ → Call
  drops_all : Call
  issues_update : Call

unfoldable pub call : Call → Service → Service
call (registers i role ns) s = (register_instance i role ns s).1
call (activates i role ns tag) s = (activate_instance i role ns tag s).1
call (updates name role tags nonce) s = (update_role name role tags nonce s).1
call (drops_instance id) s = drop_instance do_drop_tag id s
call (drops tag) s = (drop_tag do_drop_tag tag s).1
call drops_all s = drop_all do_drop_tag s
call issues_update s = record s { derived = do_issue_update s.derived }

pub run : List Call → Service → Service
unfolding call
run [] s = s
run (c ∷ cs) s = run cs (call c s)

abbrev pub Fenced : Service → Type 0
Fenced s = Everywhere Inv s.derived.roles

pub call-Fenced : (c : Call) (s : Service) → Fenced s → Fenced (call c s)
unfolding call
call-Fenced (registers i role ns) s v =
    unfold register_instance register_instance_id in ground arith
call-Fenced (activates i role ns tag) s v =
    unfold activate_instance step in
    let member =
      at_role-Everywhere Inv (add_member tag i) role s.derived.roles (step-Inv (adds_member tag i))
        v in
    ground
      (arith, subscribe_each-Inv ns tag i (at_role role (add_member tag i) s.derived.roles) member)
call-Fenced (updates name role tags nonce) s v =
    unfold update_role in
    ground (
      arith,
      at_role_events-Everywhere Inv (report_each tags nonce) role s.derived.roles
          (report_each-Inv tags nonce) v,
    )
call-Fenced (drops_instance id) s v =
    unfold drop_instance in drop_each-Inv (of_instance id s.instance_tags) s.derived v
call-Fenced (drops tag) s v = unfold drop_tag in ground (arith, do_drop_tag-Inv tag s.derived v)
call-Fenced drops_all s v = unfold drop_all in drop_each-Inv s.instance_tags s.derived v
call-Fenced issues_update s v =
    unfold do_issue_update step in
    each_role-Everywhere Inv Inv issue s.derived.roles (step-Inv issues) v

run-keeps : (cs : List Call) (s : Service) → Fenced s → Fenced (run cs s)
unfolding run
run-keeps [] s v = v
run-keeps (c ∷ cs) s v = run-keeps cs (call c s) (call-Fenced c s v)

pub make_roles-Inv : (name : String) (ns : List String) → Everywhere Inv (make_roles name ns)
unfolding make_roles
make_roles-Inv name [] = tt
make_roles-Inv name (n ∷ ns) = (create-Inv name n, make_roles-Inv name ns)

do_drop_tag-owed :
    (tag t : ℕ) (d : Derived) → Everywhere Inv d.roles → owed tag d ≤ owed tag (do_drop_tag t d)
unfolding do_drop_tag on_roles step
do_drop_tag-owed tag t d v = omega (
  arith,
  each_role-PaysIn tag (Role.drop_tag t) d.roles (step-Pays tag (drops_tag t)) v,
  drops-append tag d.sent (each_role (Role.drop_tag t) d.roles).0,
)

drop_each-owed :
    (tag : ℕ) (m : List Entry) (d : Derived)
    → Everywhere Inv d.roles
    → owed tag d ≤ owed tag (drop_each do_drop_tag m d)
unfolding drop_each
drop_each-owed tag [] d v = omega arith
drop_each-owed tag ((j, t) ∷ m) d v = omega (
  arith,
  do_drop_tag-owed tag t d v,
  drop_each-owed tag m (do_drop_tag t d) (do_drop_tag-Inv t d v),
)

latched-subscribe_each :
    (tag : ℕ) (ns : List String) (t : ℕ) (i : ClientInstance) (rs : Roles)
    → latched_in tag rs ≡ latched_in tag (subscribe_each ns t i rs)
unfolding subscribe_each
latched-subscribe_each tag [] t i rs = refl
latched-subscribe_each tag (n ∷ ns) t i rs =
    at_role-PaysIn tag (add_subscriber t i) n rs (λ r. unfold add_subscriber in refl)
    ∙ latched-subscribe_each tag ns t i (at_role n (add_subscriber t i) rs)

call-owed :
    (tag : ℕ) (c : Call) (s : Service) → Fenced s → owed tag s.derived ≤ owed tag (call c s).derived
unfolding call
call-owed tag (registers i role ns) s v =
    unfold register_instance register_instance_id in ground arith
call-owed tag (activates i role ns t) s v =
    let member =
      at_role-PaysIn tag (add_member t i) role s.derived.roles (λ r. unfold add_member in refl) in
    unfold activate_instance in
    ground (
      arith,
      member,
      latched-subscribe_each tag ns t i (at_role role (add_member t i) s.derived.roles),
    )
call-owed tag (updates name role tags nonce) s v =
    unfold update_role in
    ground (
      arith,
      at_role_events-PaysIn tag role tags nonce s.derived.roles v,
      drops-append tag s.derived.sent
          (at_role_events role (report_each tags nonce) s.derived.roles).0,
    )
call-owed tag (drops_instance id) s v =
    unfold drop_instance in drop_each-owed tag (of_instance id s.instance_tags) s.derived v
call-owed tag (drops t) s v = unfold drop_tag in ground (arith, do_drop_tag-owed tag t s.derived v)
call-owed tag drops_all s v = unfold drop_all in drop_each-owed tag s.instance_tags s.derived v
call-owed tag issues_update s v =
    unfold do_issue_update on_roles step in
    omega (
      arith,
      each_role-PaysIn tag issue s.derived.roles (step-Pays tag issues) v,
      drops-append tag s.derived.sent (each_role issue s.derived.roles).0,
    )

run-owed :
    (tag : ℕ) (cs : List Call) (s : Service)
    → Fenced s
    → owed tag s.derived ≤ owed tag (run cs s).derived
unfolding run
run-owed tag [] s v = omega arith
run-owed tag (c ∷ cs) s v =
    omega (arith, call-owed tag c s v, run-owed tag cs (call c s) (call-Fenced c s v))

-- After any history of calls of a new service, in every role each latched member still waits for
-- some subscriber to report the nonce of its latch, and no latch has a nonce that the role has not reached.
-- In any further calls the number of roles that have a tag latched and the number of drop requests that
-- have been written for the tag do not become fewer, added together. A latch that a later one of the
-- same tag replaces counts as the same.
pub run-Fenced :
    (block : ℕ) (name : String) (roles : List String) (cs further : List Call) (tag : ℕ)
    → let s = run cs (construct block name roles) in
      Fenced s
      × (latched_in tag s.derived.roles + drops_for tag s.derived.sent
          ≤ latched_in tag (run further s).derived.roles
            + drops_for tag (run further s).derived.sent)
run-Fenced block name roles cs further tag =
    let v =
      run-keeps cs (construct block name roles) (unfold construct in make_roles-Inv name roles) in
    (v, run-owed tag further (run cs (construct block name roles)) v)
