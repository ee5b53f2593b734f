-- ===== src/ControlPlane/AsyncClient/Answers.antt =====
-- cpp/mrc/src/internal/control_plane/client.cpp: which response each request gets.
use mrc.Prelude.{
  ℕ, suc, ◌+◌, ◌%◌, ◌^◌, ◌<◌, ◌≡◌, refl, sym, ap, subst, ◌∙◌, Bool, true, false, Option, none, some,
  List, [], ◌∷◌, All, length, ◌==◌, if◌then◌else◌, arith, Bool-cases, Option-cases, inl, inr,
}
use mrc.Prelude.Maps.{Map, lookup, assign, erase, lookup-assign, lookup-erase}
use mrc.ControlPlane.Events.{StateUpdate}
use mrc.ControlPlane.AsyncClient.{
  Channel, create, Event, AsyncEventStatus, Client, write_event, do_handle_event, value_of,
}
use mrc.ControlPlane.AsyncClient.Promises.{
  Step, request, issue, receive, first_response, client_of, run, Inv, Inv-Same, request_Inv,
  issue_Inv, answer_Inv,
}
use mrc.ControlPlane.AsyncClient.Received.{Other, received}

All-map :
    {P Q : AsyncEventStatus → Type 0} (sts : List AsyncEventStatus)
    → ((s : AsyncEventStatus) → P s → Q s)
    → All P sts
    → All Q sts
All-map [] f a = tt
All-map (s ∷ sts) f (x, a) = (f s x, All-map sts f a)

module _ {M : Type 0} where
  -- The ends of the requests that are pending and of those that have their value.
  record Answered (ss : List (Step M)) (c c' : Client M) : Type 0 where
    pending :
        (id p : ℕ) → lookup id c.pending_events ≡ some p → lookup p c'.values ≡ first_response id ss
    kept : (p : ℕ) (e : Event M) → lookup p c.values ≡ some e → lookup p c'.values ≡ some e

  -- The ends of the requests of a run and of those before it.
  abbrev Good : List (Step M) → Client M → List AsyncEventStatus × Client M → Type 0
  Good ss c (sts, c') =
      Answered ss c c'
      × All
          (λ s.
            (c.request_id_counter < s.request_id)
            × (value_of s c' ≡ first_response s.request_id ss))
          sts

  to_Good :
      (ss : List (Step M)) (c : Client M) (q r : List AsyncEventStatus × Client M)
      → some q ≡ some r
      → Good ss c q
      → Good ss c r
  to_Good ss c q r e =
      subst (Good ss c)
        (ap (λ o. elim o as (λ z. List AsyncEventStatus × Client M) [ none ↦ q | some y ↦ y ]) e)

  request-Good :
      (x : Event M) (ss : List (Step M)) (c : Client M) (r : List AsyncEventStatus × Client M)
      → Inv c
      → c.request_id_counter + 1 < 2 ^ 64
      → Good ss (write_event x true c).1 r
      → Good (request x ∷ ss) c ((write_event x true c).0 ∷ r.0, r.1)
  unfolding write_event first_response value_of
  request-Good x ss c (sts, c') v l (a, g) =
      let id0 = (c.request_id_counter + 1) % 2 ^ 64 in
      let new : (id : ℕ)
          → lookup id (assign id0 c.promises c.pending_events)
            ≡ (if id0 == id then some c.promises else lookup id c.pending_events) =
        λ id. lookup-assign id0 id c.promises c.pending_events in
      (
        record {
          pending = λ id p e. ground (arith, new id, a.pending id p, e, v.below id p, l);
          kept = λ p e y. a.kept p e y;
        },
        (
          (omega (arith, l), a.pending id0 c.promises (ground (arith, new id0))),
          All-map sts (λ s z. (omega (arith, z.0, l), z.1)) g,
        ),
      )

  issue-Good :
      (x : Event M) (ss : List (Step M)) (c : Client M) (r : List AsyncEventStatus × Client M)
      → c.request_id_counter + 1 < 2 ^ 64
      → Good ss (write_event x false c).1 r
      → Good (issue x ∷ ss) c r
  unfolding write_event first_response
  issue-Good x ss c (sts, c') l (a, g) = (
    record { pending = λ id p e. a.pending id p e; kept = λ p e y. a.kept p e y },
    All-map sts (λ s z. (omega (arith, z.0, l), z.1)) g,
  )

  Other-Good :
      (x : Event M) (ss : List (Step M)) (c c1 : Client M) (r : List AsyncEventStatus × Client M)
      → Inv c
      → Other x c c1
      → Good ss c1 r
      → Good (receive x ∷ ss) c r
  Other-Good x ss c c1 (sts, c') v o (a, g) = (
    record {
      pending = λ id p e.
          a.pending id p (ground (arith, o.same.pending, e))
          ∙ sym (o.passed id ss (v.below id p e).1);
      kept = λ p e y. a.kept p e (ground (arith, o.same.values, y));
    },
    All-map sts
        (λ s z. (
          ground (arith, z.0, o.same.given),
          z.1 ∙ sym (o.passed s.request_id ss (omega (arith, z.0))),
        ))
        g,
  )

  answer-Good :
      (x : Event M) (p : ℕ) (ss : List (Step M)) (c : Client M)
      (r : List AsyncEventStatus × Client M)
      → Inv c
      → lookup x.tag c.pending_events ≡ some p
      → ((id : ℕ)
          → first_response id (receive x ∷ ss)
            ≡ (if x.tag == id then some x else first_response id ss))
      → Good ss
          (record c { pending_events = erase x.tag c.pending_events; values = assign p x c.values })
          r
      → Good (receive x ∷ ss) c r
  answer-Good x p ss c (sts, c') v found first (a, g) =
      let left : (id : ℕ)
          → lookup id (erase x.tag c.pending_events)
            ≡ (if x.tag == id then none else lookup id c.pending_events) =
        λ id. lookup-erase x.tag id c.pending_events in
      let new : (q : ℕ)
          → lookup q (assign p x c.values) ≡ (if p == q then some x else lookup q c.values) =
        λ q. lookup-assign p q x c.values in
      let here : lookup p c'.values ≡ some x = a.kept p x (ground (arith, new p)) in
      (
        record {
          pending = λ id q e. elim (Bool-cases (x.tag == id)) [
            | inl y ↦ ground (arith, first id, y, here, e, found)
            | inr n ↦ ground (arith, first id, n, left id, e, a.pending id q)
          ];
          kept = λ q e y. a.kept q e (ground (arith, new q, y, v.below x.tag p found));
        },
        All-map sts
            (λ s z. (z.0, ground (arith, z.1, first s.request_id, z.0, v.below x.tag p found))) g,
      )

  counted :
      (e : Event M) (b : Bool) (c : Client M) (n : ℕ)
      → c.request_id_counter + suc n < 2 ^ 64
      → (write_event e b c).1.request_id_counter + n < 2 ^ 64
  unfolding write_event
  counted e true c n l = omega (arith, l)
  counted e false c n l = omega (arith, l)

  answers :
      (unpack : M → Option StateUpdate) (ss : List (Step M)) (c : Client M)
      (r : List AsyncEventStatus × Client M)
      → Inv c
      → c.request_id_counter + length ss < 2 ^ 64
      → run unpack ss c ≡ some r
      → Good ss c r
  unfolding run first_response do_handle_event
  answers unpack [] c r v l e =
      to_Good [] c ([], c) r e
        (record { pending = λ id p f. (v.below id p f).3; kept = λ p y f. f }, tt)
  answers unpack (request x ∷ ss) c r v l e =
      let c1 = (write_event x true c).1 in
      elim (Option-cases (run unpack ss c1)) [
        | inl n ↦ let step : run unpack (request x ∷ ss) c ≡ none = rw (run, n) refl in cc (step, e)
        | inr (q, f) ↦
            let step : run unpack (request x ∷ ss) c ≡ some ((write_event x true c).0 ∷ q.0, q.1) =
              rw (run, f) refl in
            let low : c.request_id_counter + 1 < 2 ^ 64 = omega (arith, l) in
            let g =
              answers unpack ss c1 q (request_Inv x c v low)
                (counted x true c (length ss) (omega (arith, l))) f in
            to_Good (request x ∷ ss) c ((write_event x true c).0 ∷ q.0, q.1) r (sym step ∙ e)
              (request-Good x ss c q v low g)
      ]
  answers unpack (issue x ∷ ss) c r v l e = issue-Good x ss c r (omega (arith, l)) (
      answers unpack ss (write_event x false c).1 r (issue_Inv x c v (omega (arith, l)))
        (counted x false c (length ss) (omega (arith, l))) e)
  answers unpack (receive x ∷ ss) c r v l e =
      elim (Option-cases (client_of (do_handle_event unpack x c))) [
        | inl n ↦ let step : run unpack (receive x ∷ ss) c ≡ none = rw (run, n) refl in cc (step, e)
        | inr (c1, f) ↦
            let step : run unpack (receive x ∷ ss) c ≡ run unpack ss c1 = rw (run, f) refl in
            elim (received unpack x.event x c c1 refl f) [
              | inl o ↦ Other-Good x ss c c1 r v o (
                  answers unpack ss c1 r (Inv-Same c c1 o.same v) (ground (arith, o.same.given, l))
                    (sym step ∙ e))
              | inr (p, a) ↦
                  let c2 : Client M = record c {
                    pending_events = erase x.tag c.pending_events;
                    values = assign p x c.values;
                  } in
                  answer-Good x p ss c r v a.found (λ id. a.first id ss)
                    (answers unpack ss c2 r (answer_Inv x c p v a.found) (omega (arith, l))
                      (ap (run unpack ss) (sym a.after_it) ∙ sym step ∙ e))
            ]
      ]

  create_Inv : (counter : ℕ) (channels : Map Channel) → Inv (create {M = M} counter channels)
  unfolding create lookup
  create_Inv counter channels = record {
    below = λ id p a. cc a;
    apart = λ i j p a b. cc a;
    valued = λ p e a. cc a;
  }

  -- In a run of a new client, none of whose steps fails, while no other client takes an id and the counter
  -- of the ids, wherever it was, does not reach 2^64, each request that awaits its response has for its
  -- value the first response with its id, if there is one, and none if there is not.
  pub run-answers :
      (unpack : M → Option StateUpdate) (ss : List (Step M)) (counter : ℕ) (channels : Map Channel)
      (r : List AsyncEventStatus × Client M)
      → counter + length ss < 2 ^ 64
      → run unpack ss (create counter channels) ≡ some r
      → All (λ s. value_of s r.1 ≡ first_response s.request_id ss) r.0
  unfolding create
  run-answers unpack ss counter channels r l e =
      let (_, g) =
        answers unpack ss (create counter channels) r (create_Inv counter channels)
          (omega (arith, l)) e in
      All-map r.0 (λ s z. z.1) g
