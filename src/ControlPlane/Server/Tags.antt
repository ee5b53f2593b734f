-- ===== src/ControlPlane/Server/Tags.antt =====
-- The tags of a service belong to registered instances: what each of its operations makes of this.
use Prim.Native.String.{String}
use mrc.Prelude.{
  ℕ, ◌≡◌, ◌≢◌, true, Option, none, some, List, [], ◌∷◌, All, arith, Option-cases, inl, inr,
}
use mrc.Prelude.Maps.{Map, contains}
use mrc.ControlPlane.Tagged.{next_tag}
use mrc.ControlPlane.Events.{ClientInstance}
use mrc.ControlPlane.Issuer
use mrc.ControlPlane.Issuer.{
  Issuer, Entry, emplace, of_others, remove_tag, register_instance_id, drop_tag,
}
use mrc.ControlPlane.Subscriptions.{
  Service, construct, register_instance, activate_instance, update_role, do_drop_tag,
  do_issue_update,
}
use mrc.ControlPlane.Subscriptions.Roles.{
  Fenced, call, call-Fenced, registers, activates, updates, drops_instance, drops, issues_update,
  make_roles-Inv,
}

module _ (is : Map ClientInstance) where
  -- Each entry is of a registered instance.
  abbrev pub Registered : List Entry → Type 0
  Registered = All (λ (id, t). contains id is ≡ true)

  Registered-emplace :
      (k v : ℕ) (m : List Entry) → contains k is ≡ true → Registered m → Registered (emplace k v m)
  unfolding emplace
  Registered-emplace k v [] c r = (c, tt)
  Registered-emplace k v ((j, w) ∷ m) c r = ground (arith, c, r, Registered-emplace k v m c r.1)

  abbrev RegisteredIfAny : Option (List Entry) → Type 0
  RegisteredIfAny none = Unit {0}
  RegisteredIfAny (some m) = Registered m

  RegisteredIfAny-remove_tag :
      (t : ℕ) (m : List Entry) → Registered m → RegisteredIfAny (remove_tag t m)
  unfolding remove_tag
  RegisteredIfAny-remove_tag t [] r = tt
  RegisteredIfAny-remove_tag t ((j, w) ∷ m) r =
      ground (arith, r, RegisteredIfAny-remove_tag t m r.1)

pub Registered-weaken :
    (is is' : Map ClientInstance) (m : List Entry)
    → ((j : ℕ) → contains j is ≡ true → contains j is' ≡ true)
    → Registered is m
    → Registered is' m
Registered-weaken is is' [] h r = tt
Registered-weaken is is' ((j, t) ∷ m) h r = (h j r.0, Registered-weaken is is' m h r.1)

pub Registered-of_others :
    (is is' : Map ClientInstance) (id : ℕ) (m : List Entry)
    → ((j : ℕ) → id ≢ j → contains j is ≡ true → contains j is' ≡ true)
    → Registered is m
    → Registered is' (of_others id m)
Registered-of_others is is' id [] h r = tt
Registered-of_others is is' id ((j, t) ∷ m) h r =
    ground (arith, h j, r, Registered-of_others is is' id m h r.1)

-- A service whose latches wait and whose tags are held.
abbrev pub Fine : Map ClientInstance → Service → Type 0
Fine is t = Fenced t × Registered is t.instance_tags

module _ (is : Map ClientInstance) where
  Registered-register :
      (id : ℕ) (t : Service)
      → contains id is ≡ true
      → Registered is t.instance_tags
      → Registered is (register_instance_id id t).1.instance_tags
  unfolding register_instance_id
  Registered-register id t c r = elim (Option-cases (next_tag t.tagged).0) [
    | inl n ↦ ground (arith, n, r)
    | inr (x, y) ↦ ground (arith, y, Registered-emplace is id x t.instance_tags c r)
  ]

  pub register-Fine :
      (i : ClientInstance) (role : String) (ns : List String) (t : Service)
      → contains i.id is ≡ true
      → Fine is t
      → Fine is (register_instance i role ns t).1
  register-Fine i role ns t c v = (
    unfold call in call-Fenced (registers i role ns) t v.0,
    unfold register_instance in ground (arith, v.1, Registered-register i.id t c v.1),
  )

  pub activate-Fine :
      (i : ClientInstance) (role : String) (ns : List String) (tag : ℕ) (t : Service)
      → Fine is t
      → Fine is (activate_instance i role ns tag t).1
  activate-Fine i role ns tag t v = (
    unfold call in call-Fenced (activates i role ns tag) t v.0,
    unfold activate_instance in ground (arith, v.1),
  )

  pub update-Fine :
      (name role : String) (tags : List ℕ) (nonce : ℕ) (t : Service)
      → Fine is t
      → Fine is (update_role name role tags nonce t).1
  update-Fine name role tags nonce t v = (
    unfold call in call-Fenced (updates name role tags nonce) t v.0,
    unfold update_role in ground (arith, v.1),
  )

  pub drop_tag-Fine : (tag : ℕ) (t : Service) → Fine is t → Fine is (drop_tag do_drop_tag tag t).1
  drop_tag-Fine tag t v = (
    unfold call in call-Fenced (drops tag) t v.0,
    unfold drop_tag in ground (arith, v.1, RegisteredIfAny-remove_tag is tag t.instance_tags v.1),
  )

  pub issue-Fine :
      (t : Service) → Fine is t → Fine is (record t { derived = do_issue_update t.derived })
  issue-Fine t v = (unfold call in call-Fenced issues_update t v.0, v.1)

  pub construct-Fine :
      (block : ℕ) (name : String) (roles : List String) → Fine is (construct block name roles)
  unfolding construct
  construct-Fine block name roles = (make_roles-Inv name roles, tt)

-- Dropping an instance lets go of one registration.
pub drop_instance-Fine :
    (is is' : Map ClientInstance) (id : ℕ) (t : Service)
    → ((j : ℕ) → id ≢ j → contains j is ≡ true → contains j is' ≡ true)
    → Fine is t
    → Fine is' (Issuer.drop_instance do_drop_tag id t)
drop_instance-Fine is is' id t h v = (
  unfold call in call-Fenced (drops_instance id) t v.0,
  unfold Issuer.drop_instance in Registered-of_others is is' id t.instance_tags h v.1,
)
