-- ===== src/ControlPlane/Server/History.antt =====
-- Whatever happens to a server, its tags stay attached.
use Prim.Native.String.{String}
use mrc.Prelude.{
  ℕ, ◌≡◌, refl, sym, subst, ap, ◌∙◌, Bool, true, false, Option, none, some, List, [], ◌∷◌,
  if◌then◌else◌, arith, Option-cases, Bool-cases, inl, inr,
}
use mrc.Prelude.Maps.{lookup, contains, assign}
use mrc.ControlPlane.Tagged
use mrc.ControlPlane.Server
use mrc.ControlPlane.Issuer
use mrc.ControlPlane.Issuer.{Entry, of_instance}
use mrc.ControlPlane.Connections
use mrc.ControlPlane.Connections.{
  Reply, value, error, fatal, Manager, register_instances, activate_stream, erase_instances,
  get_instance_ids, get_instance, add_stream,
}
use mrc.ControlPlane.Subscriptions.{do_drop_tag, update_role}
use mrc.ControlPlane.Server.{
  Server, Services, ClientEvent, Response, Message, Handled, silent, died, responds, create,
  unary_response, find_service, put_service, each_service, drop_instance, drop_each, drop_stream,
  validate_instance_id, unique, reply_map, of_expected, request_state_update, unhandled_event,
  register_workers, activate_workers, lookup_worker_addresses, drop_worker, create_service,
  register_service, activate_service, drop_service, update_service, unreadable_worker_message,
  unreadable_service_message, unreadable_update,
}
use mrc.ControlPlane.Server.Handlers.{
  Answer, unary_register_workers, unary_activate_stream, unary_lookup_workers, unary_drop_worker,
  new_service, unary_create_subscription_service, unary_register_subscription_service,
  unary_activate_subscription_service, unary_drop_subscription_service,
  event_update_subscription_service, respond, silently, handle_message, handle_event, issue_updates,
  accept_stream, drop_streams, drop_all_streams, Step, accepts, handles, issues, drops_all, alive,
  step, run,
}
use mrc.ControlPlane.Server.Tags.{
  register-Fine, activate-Fine, update-Fine, drop_tag-Fine, issue-Fine, construct-Fine,
  drop_instance-Fine,
}
use mrc.ControlPlane.Server.Connected.{
  Keyed, Keeps, accepted-Keeps, refused-same, drop_instance-Keyed, drop_instance-Keeps,
}
use mrc.ControlPlane.Server.Attached.{
  Attached, AttachedIfAny, find-AllFine, put-Attached, each-AllFine, AllFine-weaken,
  drop_stream-Attached, with_service-Attached,
}

-- An answer that is not fatal leaves the tags attached.
abbrev AnswerAttached : Answer → Type 0
AnswerAttached (fatal, s) = Unit {0}
AnswerAttached (error, s) = Attached s
AnswerAttached (value r, s) = Attached s

answer-Attached : (a : Answer) → Attached a.1 → AnswerAttached a
answer-Attached (fatal, s) v = tt
answer-Attached (error, s) v = v
answer-Attached (value r, s) v = v

respond-Attached :
    (e : ClientEvent) (a : Answer) → AnswerAttached a → AttachedIfAny (alive (respond e a))
unfolding unary_response
respond-Attached e (fatal, s) v = tt
respond-Attached e (error, s) v = elim (Bool-cases e.writable) [ inl y ↦ rw y v | inr n ↦ rw n tt ]
respond-Attached e (value r, s) v = elim (Bool-cases e.writable) [
  | inl y ↦ rw y v
  | inr n ↦ rw n tt
]

grown :
    (s : Server) (m : Manager)
    → Attached s
    → Keyed m
    → Keeps s.connections m
    → Attached (record s { connections = m })
grown s m v k h = record {
  keyed = k;
  fine = AllFine-weaken s.connections.instances m.instances s.services h v.fine;
}

register_workers-Attached :
    (rs : List Connections.Request) (e : ClientEvent) (s : Server)
    → Attached s
    → AnswerAttached (unary_register_workers rs e s)
unfolding unary_register_workers reply_map
register_workers-Attached rs e s v = go (register_instances e.stream rs s.connections) refl
  where
    go :
        (q : Reply (ℕ × List ℕ) × Manager)
        → register_instances e.stream rs s.connections ≡ q
        → AnswerAttached (
          reply_map (λ (id, ids). Server.workers_registered id ids) q.0,
          record s { connections = q.1 },
        )
    go (fatal, m) h = tt
    go (error, m) h =
        subst (λ x. Attached (record s { connections = x })) {x = s.connections} {y = m}
          (sym (refused-same e.stream rs s.connections (ap (λ x. x.0) h)) ∙ ap (λ x. x.1) h) v
    go (value r, m) h =
        let (k, g) = accepted-Keeps e.stream rs s.connections r v.keyed (ap (λ x. x.0) h) in
        subst (λ x. Attached (record s { connections = x }))
          {x = (register_instances e.stream rs s.connections).1} {y = m} (ap (λ x. x.1) h)
          (grown s _ v k g)

drop_worker-Attached :
    (id : ℕ) (e : ClientEvent) (s : Server) → Attached s → Attached (unary_drop_worker id e s).1
unfolding unary_drop_worker drop_instance
drop_worker-Attached id e s v =
    let m : Manager = (Connections.drop_instance e.stream id s.connections).1 in
    record {
      keyed = drop_instance-Keyed e.stream id s.connections v.keyed;
      fine =
          each-AllFine s.connections.instances m.instances (Issuer.drop_instance do_drop_tag id)
            s.services
            (λ t.
              drop_instance-Fine s.connections.instances m.instances id t
                (drop_instance-Keeps e.stream id s.connections))
            v.fine;
    }

new_service-Attached :
    (name : String) (roles : List String) (s : Server)
    → Attached s
    → Attached (new_service name roles s).1
unfolding new_service
new_service-Attached name roles s v = elim (Option-cases (Tagged.next s.next_block).0) [
  | inl n ↦ rw (n, new_service) (record { keyed = v.keyed; fine = v.fine })
  | inr (b, y) ↦
      rw (y, new_service)
        (record {
          keyed = v.keyed;
          fine = (construct-Fine s.connections.instances b name roles, v.fine);
        })
]

create_service-Attached :
    (name : String) (roles : List String) (s : Server)
    → Attached s
    → Attached (unary_create_subscription_service name roles s).1
unfolding unary_create_subscription_service
create_service-Attached name roles s v = elim (Bool-cases (unique roles)) [
  | inr n ↦ rw (n, unary_create_subscription_service) v
  | inl y ↦ elim (Option-cases (find_service name s.services)) [
    | inl n ↦ rw (y, n, unary_create_subscription_service) (new_service-Attached name roles s v)
    | inr (t, p) ↦ rw (y, p, unary_create_subscription_service) v
  ]
]

drop_service-Attached :
    (name : String) (id tag : ℕ) (e : ClientEvent) (s : Server)
    → Attached s
    → Attached (unary_drop_subscription_service name id tag e s).1
unfolding unary_drop_subscription_service
drop_service-Attached name id tag e s v = elim (Option-cases (validate_instance_id id e s)) [
  | inl n ↦ rw (n, unary_drop_subscription_service) v
  | inr (i, p) ↦ elim (Option-cases (find_service name s.services)) [
    | inl n ↦ rw (p, n, unary_drop_subscription_service) v
    | inr (t, q) ↦
        rw (p, q, unary_drop_subscription_service)
          (put-Attached name (Issuer.drop_tag do_drop_tag tag t).1 s
            (drop_tag-Fine s.connections.instances tag t
              (find-AllFine s.connections.instances name s.services t q v.fine))
            v)
  ]
]

update_service-Attached :
    (name role : String) (tags : List ℕ) (nonce : ℕ) (s : Server)
    → Attached s
    → Attached (event_update_subscription_service name role tags nonce s).1
unfolding event_update_subscription_service
update_service-Attached name role tags nonce s v =
    elim (Option-cases (find_service name s.services)) [
      | inl n ↦ rw (n, event_update_subscription_service) v
      | inr (t, q) ↦
          rw (q, event_update_subscription_service)
            (put-Attached name (update_role name role tags nonce t).1 s
              (update-Fine s.connections.instances name role tags nonce t
                (find-AllFine s.connections.instances name s.services t q v.fine))
              v)
    ]

silently-Attached :
    (a : Reply (Unit {0}) × Server) → Attached a.1 → AttachedIfAny (alive (silently a))
silently-Attached (value u, s) v = v
silently-Attached (error, s) v = tt
silently-Attached (fatal, s) v = tt

message-Attached :
    (x : Message) (e : ClientEvent) (s : Server)
    → Attached s
    → AttachedIfAny (alive (handle_message x e s))
message-Attached request_state_update e s v = v
message-Attached unhandled_event e s v = tt
message-Attached (register_workers rs) e s v =
    respond-Attached e (unary_register_workers rs e s) (register_workers-Attached rs e s v)
message-Attached (activate_workers ids) e s v =
    respond-Attached e (unary_activate_stream ids e s)
      (unfold unary_activate_stream activate_stream in record { keyed = v.keyed; fine = v.fine })
message-Attached (lookup_worker_addresses ids) e s v =
    respond-Attached e (unary_lookup_workers ids s) (unfold unary_lookup_workers in v)
message-Attached (drop_worker id) e s v =
    respond-Attached e (unary_drop_worker id e s)
      (answer-Attached (unary_drop_worker id e s) (drop_worker-Attached id e s v))
message-Attached (create_service name roles) e s v =
    respond-Attached e (unary_create_subscription_service name roles s)
      (answer-Attached _ (create_service-Attached name roles s v))
message-Attached (register_service name role ns id) e s v =
    respond-Attached e (unary_register_subscription_service name role ns id e s) (
      unfold unary_register_subscription_service in
      answer-Attached _ (
        with_service-Attached name role ns id e _ _ s
          (λ i t. register-Fine s.connections.instances i role ns t) v))
message-Attached (activate_service name role ns id tag) e s v =
    respond-Attached e (unary_activate_subscription_service name role ns id tag e s) (
      unfold unary_activate_subscription_service in
      answer-Attached _ (
        with_service-Attached name role ns id e _ _ s
          (λ i t c. activate-Fine s.connections.instances i role ns tag t) v))
message-Attached (drop_service name id tag) e s v =
    respond-Attached e (unary_drop_subscription_service name id tag e s)
      (answer-Attached _ (drop_service-Attached name id tag e s v))
message-Attached (update_service name role tags nonce) e s v =
    silently-Attached _ (update_service-Attached name role tags nonce s v)
message-Attached unreadable_worker_message e s v = tt
message-Attached unreadable_service_message e s v = respond-Attached e (error, s) v
message-Attached unreadable_update e s v = tt

then-Attached :
    (o : Option Server) (f : Server → Option Server)
    → AttachedIfAny o
    → ((t : Server) → Attached t → AttachedIfAny (f t))
    → AttachedIfAny (elim o [ none ↦ none | some t ↦ f t ])
then-Attached none f w k = tt
then-Attached (some t) f w k = k t w

drop_streams-Attached :
    (ids : List ℕ) (s : Server) → Attached s → AttachedIfAny (drop_streams ids s)
unfolding drop_streams
drop_streams-Attached [] s v = v
drop_streams-Attached (id ∷ ids) s v =
    then-Attached (drop_stream id s) (drop_streams ids) (drop_stream-Attached id s v)
      (drop_streams-Attached ids)

closing-Attached :
    (o : Option Server) (s : Server)
    → AttachedIfAny o
    → AttachedIfAny (alive (elim o [ none ↦ (died, s) | some t ↦ (silent, t) ]))
closing-Attached none s w = tt
closing-Attached (some t) s w = w

handle-Attached :
    (e : ClientEvent) (s : Server) → Attached s → AttachedIfAny (alive (handle_event e s))
unfolding handle_event
handle-Attached e s v = go e.ok
  where
    go :
        (b : Bool)
        → AttachedIfAny (
            alive (
              if b
              then handle_message e.message e s
              else elim (drop_stream e.stream s) [ none ↦ (died, s) | some t ↦ (silent, t) ]))
    go true = message-Attached e.message e s v
    go false = closing-Attached (drop_stream e.stream s) s (drop_stream-Attached e.stream s v)

accept-Attached : (id : ℕ) (s : Server) → Attached s → AttachedIfAny (accept_stream id s)
unfolding accept_stream add_stream
accept-Attached id s v = go (contains id s.connections.streams) refl
  where
    go :
        (b : Bool)
        → contains id s.connections.streams ≡ b
        → AttachedIfAny (
            let r : Reply (Unit {0}) × Manager = if b then (fatal, s.connections) else (
              value tt,
              record s.connections { streams = assign id true s.connections.streams },
            ) in
            elim r.0 [
              | value u ↦ some (record s { connections = r.1 })
              | error ↦ none
              | fatal ↦ none
            ])
    go true e = tt
    go false e =
        grown s (record s.connections { streams = assign id true s.connections.streams }) v v.keyed
          (λ j c. ground (arith, c))

step-Attached : (x : Step) (s : Server) → Attached s → AttachedIfAny (step x s)
unfolding step
step-Attached (accepts id) s v = accept-Attached id s v
step-Attached (handles e) s v = handle-Attached e s v
step-Attached issues s v =
    unfold issue_updates Connections.issue in
    record {
      keyed = v.keyed;
      fine = each-AllFine _ _ _ s.services (issue-Fine s.connections.instances) v.fine;
    }
step-Attached drops_all s v = unfold drop_all_streams in drop_streams-Attached _ s v

run-Attached : (xs : List Step) (s : Server) → Attached s → AttachedIfAny (run xs s)
unfolding run
run-Attached [] s v = v
run-Attached (x ∷ xs) s v =
    then-Attached (step x s) (run xs) (step-Attached x s v) (run-Attached xs)

-- In every server that is alive after any history of events, updates, accepted and dropped streams,
-- every instance is stored under its id, every tag of every service belongs to an instance that is
-- still registered, and every latch of every role waits for some subscriber.
pub history-Attached : (xs : List Step) (s : Server) → run xs create ≡ some s → Attached s
history-Attached xs s e = subst AttachedIfAny {x = run xs create} {y = some s} e (
    run-Attached xs create (
      unfold create Connections.create in
      record { keyed = λ j i f. unfold lookup in cc; fine = tt }))
