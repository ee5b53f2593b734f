-- ===== src/ControlPlane/AsyncClient/Received.antt =====
-- cpp/mrc/src/internal/control_plane/client.cpp: what an event of the server changes for the promises.
use mrc.Prelude.{
  ℕ, ◌<◌, ◌≡◌, refl, sym, ap, subst, ◌∙◌, Option, none, some, List, ◌∷◌, ◌==◌, if◌then◌else◌, arith,
  Bool-cases, Option-cases, ◌⊎◌, inl, inr,
}
use mrc.Prelude.Maps.{lookup, assign, erase}
use mrc.ControlPlane.Events.{StateUpdate}
use mrc.ControlPlane.AsyncClient.{
  Event, EventType, Client, set_value, handle_event_of, handle_update, route_state_update,
  await_write, write_all, has_connections,
}
use mrc.ControlPlane.AsyncClient.Promises.{
  Step, receive, response_or, first_response, client_of, Same,
}

module _ {M : Type 0} where
  -- An event that is not the response of a pending request.
  pub record Other (e : Event M) (c c' : Client M) : Type 0 where
    pub same : Same c c'
    pub passed :
        (id : ℕ) (ss : List (Step M))
        → 0 < id
        → first_response id (receive e ∷ ss) ≡ first_response id ss

  -- The response of a pending request.
  pub record Answer (e : Event M) (p : ℕ) (c c' : Client M) : Type 0 where
    pub found : lookup e.tag c.pending_events ≡ some p
    pub after_it :
        c'
        ≡ record c { pending_events = erase e.tag c.pending_events; values = assign p e c.values }
    pub first :
        (id : ℕ) (ss : List (Step M))
        → first_response id (receive e ∷ ss)
          ≡ (if e.tag == id then some e else first_response id ss)

  of_some : (c x c' : Client M) → some x ≡ some c' → Same c x → Same c c'
  of_some c x c' e s =
      subst (λ d. Same c d) (ap (λ o. elim o as (λ z. Client M) [ none ↦ c | some y ↦ y ]) e) s

  update_Same :
      (u : StateUpdate) (tag : ℕ) (c c' : Client M)
      → client_of (handle_update u tag c) ≡ some c'
      → Same c c'
  unfolding handle_update route_state_update
  update_Same u tag c c' e = elim (Bool-cases (has_connections u.body)) [
    | inl y ↦ elim (Bool-cases c.connections_update_channel.is_open) [
      | inl o ↦
          let x : Client M = record c {
            connections_update_channel = await_write u c.connections_update_channel;
          } in
          let step : client_of (handle_update u tag c) ≡ some x = rw (handle_update, y, o) refl in
          of_some c x c' (sym step ∙ e)
            (record { pending = refl; made = refl; given = refl; values = refl })
      | inr n ↦
          let step : client_of (handle_update u tag c) ≡ none = rw (handle_update, y, n) refl in
          cc (step, e)
    ]
    | inr y ↦ elim (Bool-cases (tag == 0)) [
      | inl o ↦
          let x : Client M = record c { instance_channels = write_all u c.instance_channels } in
          let step : client_of (handle_update u tag c) ≡ some x =
            rw (handle_update, y, route_state_update, o) refl in
          of_some c x c' (sym step ∙ e)
            (record { pending = refl; made = refl; given = refl; values = refl })
      | inr n ↦ elim (Option-cases (lookup tag c.instance_channels)) [
        | inl absent ↦
            let step : client_of (handle_update u tag c) ≡ none =
              rw (handle_update, y, route_state_update, n, absent) refl in
            cc (step, e)
        | inr (i, there) ↦
            let x : Client M = record c {
              instance_channels = assign tag (await_write u i) c.instance_channels;
            } in
            let step : client_of (handle_update u tag c) ≡ some x =
              rw (handle_update, y, route_state_update, n, there) refl in
            of_some c x c' (sym step ∙ e)
              (record { pending = refl; made = refl; given = refl; values = refl })
      ]
    ]
  ]

  abbrev pub Received : Event M → Client M → Client M → Type 0
  Received e c c' = Other e c c' ⊎ ((p : ℕ) × Answer e p c c')

  of_response :
      (unpack : M → Option StateUpdate) (e : Event M) (c c' : Client M)
      → e.event ≡ EventType.response
      → client_of (handle_event_of EventType.response unpack e c) ≡ some c'
      → Received e c c'
  unfolding handle_event_of set_value first_response
  of_response unpack e c c' t h = elim (Bool-cases (e.tag == 0)) [
    | inl z ↦
        let step : client_of (handle_event_of EventType.response unpack e c) ≡ some c =
          rw (handle_event_of, z) refl in
        inl (record {
          same =
              of_some c c c' (sym step ∙ h)
                (record { pending = refl; made = refl; given = refl; values = refl });
          passed = λ id ss l.
              ap (λ k. response_or k e id (first_response id ss)) t ∙ ground (arith, z, l);
        })
    | inr n ↦ elim (Option-cases (lookup e.tag c.pending_events)) [
      | inl absent ↦
          let step : client_of (handle_event_of EventType.response unpack e c) ≡ none =
            rw (handle_event_of, n, set_value, absent) refl in
          cc (step, h)
      | inr (p, there) ↦
          let x : Client M = record c {
            pending_events = erase e.tag c.pending_events;
            values = assign p e c.values;
          } in
          let step : client_of (handle_event_of EventType.response unpack e c) ≡ some x =
            rw (handle_event_of, n, set_value, there) refl in
          inr (
            p,
            record {
              found = there;
              after_it =
                  ap (λ o. elim o as (λ z. Client M) [ none ↦ c | some y ↦ y ]) (sym h ∙ step);
              first = λ id ss. ap (λ k. response_or k e id (first_response id ss)) t;
            },
          )
    ]
  ]

  pub received :
      (unpack : M → Option StateUpdate) (t : EventType) (e : Event M) (c c' : Client M)
      → e.event ≡ t
      → client_of (handle_event_of t unpack e c) ≡ some c'
      → Received e c c'
  unfolding handle_event_of first_response
  received unpack EventType.response e c c' t h = of_response unpack e c c' t h
  received unpack EventType.server_state_update e c c' t h =
      elim (Option-cases (unpack e.message)) [
        | inl n ↦
            let step : client_of (handle_event_of EventType.server_state_update unpack e c) ≡ none =
              rw (handle_event_of, n) refl in
            cc (step, h)
        | inr (u, y) ↦
            let step : client_of (handle_event_of EventType.server_state_update unpack e c)
                ≡ client_of (handle_update u e.tag c) =
              rw (handle_event_of, y) refl in
            inl (record {
              same = update_Same u e.tag c c' (sym step ∙ h);
              passed = λ id ss l. ap (λ k. response_or k e id (first_response id ss)) t;
            })
      ]
  received unpack EventType.client_event_request_state_update e c c' t h = cc h
  received unpack (EventType.other n) e c c' t h = cc h
