-- ===== src/ControlPlane/Role/Updates.antt =====
-- Who is told of the members of a role, and when.
use mrc.Prelude.{
  ℕ, suc, ◌<◌, ◌≡◌, inl, inr, refl, ap, Bool, true, false, List, [], ◌∷◌, ◌==◌, if◌then◌else◌, elem,
  All, arith, Bool-cases,
}
use mrc.Prelude.Maps.{Map}
use mrc.ControlPlane.Events.{ClientInstance, Event, StateUpdate, update_subscription_service}
use mrc.ControlPlane.Versioned.{VersionedState, issue_update}
use mrc.ControlPlane.Role.{Role, add_subscriber, make_update, notify, issue, tagged_instances}

-- The number of events addressed to an instance.
abbrev pub sent_to : ℕ → List Event → ℕ
sent_to k [] = 0
sent_to k (e ∷ es) = if e.tag == k then suc (sent_to k es) else sent_to k es

-- Whether some entry of a map is that instance.
abbrev pub listed : ℕ → Map ClientInstance → Bool
listed k [] = false
listed k ((t, i) ∷ m) = if i.id == k then true else listed k m

sent_to-notify :
    (k : ℕ) (seen : List ℕ) (m : Map ClientInstance) (u : StateUpdate)
    → sent_to k (notify seen m u) ≡ (if elem k seen then 0 else if listed k m then 1 else 0)
unfolding notify
sent_to-notify k seen [] u = ground arith
sent_to-notify k seen ((t, i) ∷ m) u =
    ground (arith, sent_to-notify k seen m u, sent_to-notify k (i.id ∷ seen) m u)

messages-notify :
    (seen : List ℕ) (m : Map ClientInstance) (u : StateUpdate)
    → All (λ e. e.message ≡ u) (notify seen m u)
unfolding notify
messages-notify seen [] u = tt
messages-notify seen ((t, i) ∷ m) u = elim (Bool-cases (elem i.id seen)) [
  | inl old ↦ rw (old, notify) (messages-notify seen m u)
  | inr new ↦ rw (new, notify) (refl, messages-notify (i.id ∷ seen) m u)
]

All-weaken {ℓ} :
    {A : Type ℓ} (P Q : A → Type 0) (xs : List A) → ((x : A) → P x → Q x) → All P xs → All Q xs
All-weaken P Q [] f h = tt
All-weaken P Q (x ∷ xs) f h = (f x h.0, All-weaken P Q xs f h.1)

due :
    (v : VersionedState)
    → v.issued_nonce < v.current_nonce
    → issue_update v ≡ (true, record v { issued_nonce = v.current_nonce })
unfolding issue_update
due v h = ground arith

idle : (r : Role) → r.version.issued_nonce ≡ r.version.current_nonce → issue r ≡ ([], r)
unfolding issue issue_update
idle r e = ground arith

abbrev pub Carries : Role → Event → Type 0
Carries r e =
    (e.message.body ≡ update_subscription_service r.role_name (tagged_instances r.members))
    × (e.message.nonce ≡ r.version.current_nonce)

-- When a modification is due, every instance that subscribes is sent exactly one event, and no other
-- instance any; each event carries the current members, and a second call writes nothing.
pub issue_lem :
    (r : Role)
    → r.version.issued_nonce < r.version.current_nonce
    → let (es, r') = issue r in
      ((k : ℕ) → sent_to k es ≡ (if listed k r.subscribers then 1 else 0))
      × All (Carries r) es
      × (issue r' ≡ ([], r'))
unfolding issue
issue_lem r h =
    let r' : Role = record r {
      version = record r.version { issued_nonce = r.version.current_nonce };
    } in
    rw (due r.version h) (
      λ k. sent_to-notify k [] r.subscribers (make_update r'),
      All-weaken _ (Carries r) _
          (λ e p.
            unfold make_update in
            (ap (λ (u : StateUpdate). u.body) p, ap (λ (u : StateUpdate). u.nonce) p))
          (messages-notify [] r.subscribers (make_update r')),
      idle r' refl,
    )

-- A subscriber that joins a role whose last modification has been issued is told nothing: neither
-- `add_subscriber` nor any number of later calls of `issue_update` writes an event.
pub late_subscriber_uninformed :
    (tag : ℕ) (i : ClientInstance) (r : Role)
    → r.version.issued_nonce ≡ r.version.current_nonce
    → issue (add_subscriber tag i r) ≡ ([], add_subscriber tag i r)
unfolding issue add_subscriber issue_update
late_subscriber_uninformed tag i r e = ground arith
