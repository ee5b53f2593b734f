-- ===== src/ControlPlane/AsyncClient/Promises.antt =====
-- cpp/mrc/src/internal/control_plane/client.cpp: the steps of a client, and the promises that are pending.
use mrc.Prelude.{
  ℕ, ◌+◌, ◌%◌, ◌^◌, ◌≤◌, ◌<◌, ◌≡◌, true, false, Option, none, some, List, [], ◌∷◌, ◌==◌,
  if◌then◌else◌, arith, Option-cases, inl, inr,
}
use mrc.Prelude.Maps.{lookup, assign, erase, lookup-assign, lookup-erase}
use mrc.ControlPlane.Events.{StateUpdate}
use mrc.ControlPlane.AsyncClient.{
  Event, EventType, AsyncEventStatus, Client, Handled, write_event, do_handle_event,
}

-- A request that awaits its response, one that does not, and an event of the server.
pub data Step (M : Type 0) : Type 0 where
  request : Event M → Step M
  issue : Event M → Step M
  receive : Event M → Step M

module _ {M : Type 0} where
  -- An event, if it is a response with the id, and something else if not.
  abbrev pub response_or : EventType → Event M → ℕ → Option (Event M) → Option (Event M)
  response_or EventType.response e id rest = if e.tag == id then some e else rest
  response_or _ e id rest = rest

  -- The first response with the request's id.
  unfoldable pub first_response : ℕ → List (Step M) → Option (Event M)
  first_response id [] = none
  first_response id (request e ∷ ss) = first_response id ss
  first_response id (issue e ∷ ss) = first_response id ss
  first_response id (receive e ∷ ss) = response_or e.event e id (first_response id ss)

  -- What the loop keeps when an event has been handled.
  abbrev pub client_of : Handled M → Option (Client M)
  client_of Handled.died = none
  client_of Handled.undefined = none
  client_of (Handled.handled c) = some c

  -- The statuses of the requests that await a response, in order, and the client afterwards.
  unfoldable pub run :
      (M → Option StateUpdate)
      → List (Step M)
      → Client M
      → Option (List AsyncEventStatus × Client M)
  unfolding write_event do_handle_event
  run unpack [] c = some ([], c)
  run unpack (request e ∷ ss) c =
      let (s, c') = write_event e true c in
      let rest = run unpack ss c' in elim rest [ none ↦ none | some r ↦ some (s ∷ r.0, r.1) ]
  run unpack (issue e ∷ ss) c = run unpack ss (write_event e false c).1
  run unpack (receive e ∷ ss) c = elim (client_of (do_handle_event unpack e c)) [
    | none ↦ none
    | some c' ↦ run unpack ss c'
  ]

  -- The promises of the pending events are different ones, which have no value, and their keys are ids
  -- that have been given.
  pub record Inv (c : Client M) : Type 0 where
    pub below :
        (id p : ℕ)
        → lookup id c.pending_events ≡ some p
        → (p < c.promises) × (0 < id) × (id ≤ c.request_id_counter) × (lookup p c.values ≡ none)
    pub apart :
        (i j p : ℕ)
        → lookup i c.pending_events ≡ some p
        → lookup j c.pending_events ≡ some p
        → i ≡ j
    pub valued : (p : ℕ) (e : Event M) → lookup p c.values ≡ some e → p < c.promises

  -- A client that differs in neither the promises nor the ids.
  pub record Same (c c' : Client M) : Type 0 where
    pub pending : c'.pending_events ≡ c.pending_events
    pub made : c'.promises ≡ c.promises
    pub given : c'.request_id_counter ≡ c.request_id_counter
    pub values : c'.values ≡ c.values

  pub Inv-Same : (c c' : Client M) → Same c c' → Inv c → Inv c'
  Inv-Same c c' s v = record {
    below = λ id p e. ground (arith, v.below id p, e, s.pending, s.made, s.given, s.values);
    apart =
        λ i j p a b. v.apart i j p (ground (arith, s.pending, a)) (ground (arith, s.pending, b));
    valued = λ p e a. ground (arith, v.valued p e, s.values, s.made, a);
  }

  no_value : (c : Client M) → Inv c → lookup c.promises c.values ≡ none
  no_value c v = elim (Option-cases (lookup c.promises c.values)) [
    | inl n ↦ n
    | inr (e, a) ↦ absurd (omega (arith, v.valued c.promises e a))
  ]

  pub request_Inv :
      (e : Event M) (c : Client M)
      → Inv c
      → c.request_id_counter + 1 < 2 ^ 64
      → Inv (write_event e true c).1
  unfolding write_event
  request_Inv e c v l =
      let id0 = (c.request_id_counter + 1) % 2 ^ 64 in
      let new : (id : ℕ)
          → lookup id (assign id0 c.promises c.pending_events)
            ≡ (if id0 == id then some c.promises else lookup id c.pending_events) =
        λ id. lookup-assign id0 id c.promises c.pending_events in
      record {
        below = λ id p a. ground (arith, new id, v.below id p, a, l, no_value c v);
        apart = λ i j p a b.
            ground (arith, new i, new j, v.below i p, v.below j p, v.apart i j p, a, b);
        valued = λ p x a. ground (arith, v.valued p x, a);
      }

  pub issue_Inv :
      (e : Event M) (c : Client M)
      → Inv c
      → c.request_id_counter + 1 < 2 ^ 64
      → Inv (write_event e false c).1
  unfolding write_event
  issue_Inv e c v l = record {
    below = λ id p a. ground (arith, v.below id p, a, l);
    apart = λ i j p a b. v.apart i j p a b;
    valued = λ p x a. v.valued p x a;
  }

  pub answer_Inv :
      (e : Event M) (c : Client M) (p : ℕ)
      → Inv c
      → lookup e.tag c.pending_events ≡ some p
      → Inv
          (record c { pending_events = erase e.tag c.pending_events; values = assign p e c.values })
  answer_Inv e c p v found =
      let left : (id : ℕ)
          → lookup id (erase e.tag c.pending_events)
            ≡ (if e.tag == id then none else lookup id c.pending_events) =
        λ id. lookup-erase e.tag id c.pending_events in
      let new : (q : ℕ)
          → lookup q (assign p e c.values) ≡ (if p == q then some e else lookup q c.values) =
        λ q. lookup-assign p q e c.values in
      record {
        below =
            λ id q a. ground (arith, left id, new q, v.below id q, v.apart id e.tag q, a, found);
        apart = λ i j q a b. ground (arith, left i, left j, v.apart i j q, a, b);
        valued = λ q x a. ground (arith, new q, v.valued q x, v.below e.tag p, found, a);
      }
