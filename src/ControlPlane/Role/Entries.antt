-- ===== src/ControlPlane/Role/Entries.antt =====
-- The loop of `evaluate_latches` over the latched members.
use mrc.Prelude.{
  ℕ, ◌+◌, ◌≤◌, ◌≡◌, inl, inr, refl, ap, Bool, false, Option, none, some, List, [], ◌∷◌, ◌==◌,
  if◌then◌else◌, select, elem, map, arith, Bool-cases,
}
use mrc.Prelude.Maps.{Map, lookup, erase, IsSorted, Above, erase-IsSorted, lookup-erase}
use mrc.ControlPlane.Events.{
  Event, Body, connections, update_subscription_service, drop_subscription_service,
}
use mrc.ControlPlane.Role.{Role, Latch, drop_event, erase_each, evaluate_latches, is_ready}

-- The number of drop requests for a tag among the events.
abbrev asks_drop : ℕ → Body → ℕ
asks_drop tag (connections l) = 0
asks_drop tag (update_subscription_service role l) = 0
asks_drop tag (drop_subscription_service role t) = if t == tag then 1 else 0

abbrev pub drops : ℕ → List Event → ℕ
drops tag [] = 0
drops tag (e ∷ es) = asks_drop tag e.message.body + drops tag es

-- What is looked up, if it passes the test.
abbrev pub passing {ℓ} : {V : Type ℓ} → (V → Bool) → Option V → Bool
passing p none = false
passing p (some v) = p v

module _ (p : ℕ × Latch → Bool) where
  abbrev keys : Map Latch → List ℕ
  keys m = map (λ e. e.0) (select p m)

  keys-Above : (i k : ℕ) (m : Map Latch) → Above k m → i ≤ k → elem i (keys m) ≡ false
  keys-Above i k [] a h = refl
  keys-Above i k ((j, l) ∷ m) a h = ground (arith, keys-Above i k m a.1)

  elem-keys :
      (i : ℕ) (m : Map Latch) → IsSorted m → elem i (keys m) ≡ passing (λ l. p (i, l)) (lookup i m)
  unfolding lookup
  elem-keys i [] s = refl
  elem-keys i ((j, l) ∷ m) s = elim (Bool-cases (j == i)) [
    | inl e ↦ elim (Bool-cases (p (j, l))) [
      | inl y ↦ ground (arith, same j (ground arith) l, keys-Above i j m s.0)
      | inr n ↦ ground (arith, same j (ground arith) l, keys-Above i j m s.0)
    ]
    | inr e ↦ ground (arith, elem-keys i m s.1)
  ]
    where
      same : (k : ℕ) → k ≡ i → (v : Latch) → p (k, v) ≡ p (i, v)
      same k e v = ap (λ x. p (x, v)) e

lookup-erase_each :
    (i : ℕ) (ts : List ℕ) (m : Map Latch)
    → lookup i (erase_each ts m) ≡ (if elem i ts then none else lookup i m)
unfolding erase_each
lookup-erase_each i [] m = refl
lookup-erase_each i (t ∷ ts) m =
    ground (arith, lookup-erase_each i ts (erase t m), lookup-erase t i m)

pub erase_each-IsSorted : (ts : List ℕ) (m : Map Latch) → IsSorted m → IsSorted (erase_each ts m)
unfolding erase_each
erase_each-IsSorted [] m s = s
erase_each-IsSorted (t ∷ ts) m s = erase_each-IsSorted ts (erase t m) (erase-IsSorted t m s)

module _ (r : Role) (p : ℕ × Latch → Bool) where
  abbrev requests : Map Latch → List Event
  requests m = map (drop_event r) (select p m)

  drops-Above : (i k : ℕ) (m : Map Latch) → Above k m → i ≤ k → drops i (requests m) ≡ 0
  unfolding drop_event
  drops-Above i k [] a h = refl
  drops-Above i k ((j, l) ∷ m) a h = ground (arith, drops-Above i k m a.1)

  drops-requests :
      (i : ℕ) (m : Map Latch)
      → IsSorted m
      → drops i (requests m) ≡ (if passing (λ l. p (i, l)) (lookup i m) then 1 else 0)
  unfolding lookup drop_event
  drops-requests i [] s = refl
  drops-requests i ((j, l) ∷ m) s = elim (Bool-cases (j == i)) [
    | inl e ↦ elim (Bool-cases (p (j, l))) [
      | inl y ↦ ground (arith, same j (ground arith) l, drops-Above i j m s.0)
      | inr n ↦ ground (arith, same j (ground arith) l, drops-Above i j m s.0)
    ]
    | inr e ↦ ground (arith, drops-requests i m s.1)
  ]
    where
      same : (k : ℕ) → k ≡ i → (v : Latch) → p (k, v) ≡ p (i, v)
      same k e v = ap (λ x. p (x, v)) e

-- Whether the latch of a tag can go.
abbrev pub released : Role → ℕ → Bool
released r i = passing (λ l. is_ready r.subscriber_nonces (i, l)) (lookup i r.latched_members)

-- If the latches are sorted by their tags, as the entries of a map are, they stay so, and a latch
-- goes exactly when every subscriber has reported its nonce or a later one: its drop request is
-- written then, once, and in no other case.
pub evaluate_latches_lem :
    (i : ℕ) (r : Role)
    → IsSorted r.latched_members
    → let (es, r') = evaluate_latches r in
      (lookup i r'.latched_members ≡ (if released r i then none else lookup i r.latched_members))
      × (drops i es ≡ (if released r i then 1 else 0))
      × IsSorted r'.latched_members
unfolding evaluate_latches
evaluate_latches_lem i r s =
    let p = is_ready r.subscriber_nonces in
    let m = r.latched_members in
    (
      rw (lookup-erase_each i (keys p m) m, elem-keys p i m s),
      drops-requests r p i m s,
      erase_each-IsSorted (keys p m) m s,
    )
