-- ===== src/ControlPlane/Server/Requests.antt =====
-- What a client may do to instances and tags that are not its own.
use Prim.Native.String.{String}
use text.Mathlib.Text.{◌==◌ as str_eq}
use mrc.Prelude.{
  false, if◌then◌else◌, ℕ, ◌≡◌, ◌≢◌, refl, ap, true, none, some, List, [], ◌∷◌, map, arith,
  Bool-cases, inl, inr,
}
use mrc.Prelude.Maps.{lookup}
use mrc.ControlPlane.Events.{ClientInstance}
use mrc.ControlPlane.Issuer
use mrc.ControlPlane.Issuer.{Entry, of_instance, remove_tag, tag_count_for_instance_id}
use mrc.ControlPlane.Issuer.Entries.{uses}
use mrc.ControlPlane.Connections
use mrc.ControlPlane.Connections.{
  error, fatal, value, get_instance, get_instance_ids, erase_entry, in_use,
}
use mrc.ControlPlane.Connections.Dropping.{drop_instance_lem}
use mrc.ControlPlane.Subscriptions.{Service, register_instance, activate_instance}
use mrc.ControlPlane.Server.{
  Server, ClientEvent, Message, register_service, activate_service, drop_service, drop_worker,
  Handled, died, responds, ack, instance_error, unary_response, validate_instance_id, find_service,
  service_registered, unique, reply_map,
}
use mrc.ControlPlane.Server.Handlers.{
  with_service, unary_register_subscription_service, unary_activate_subscription_service,
  unary_drop_subscription_service, unary_drop_worker, handle_event, respond,
}

-- An event of an open stream, to which the response can be written.
abbrev pub event : ℕ → Message → ClientEvent
event stream m = record { stream = stream; ok = true; writable = true; message = m }

invalid :
    (id : ℕ) (i : ClientInstance) (e : ClientEvent) (s : Server)
    → lookup id s.connections.instances ≡ some i
    → i.stream_writer ≢ e.stream
    → validate_instance_id id e s ≡ none
unfolding validate_instance_id get_instance
invalid id i e s h n = ground (arith, h, n)

unserved :
    {A : Type 0} (name role : String) (ns : List String) (id : ℕ) (e : ClientEvent) (s : Server)
    → validate_instance_id id e s ≡ none
    → (m : _) (a : _) → with_service {A = A} name role ns id e m a s ≡ (error, s)
unfolding with_service
unserved name role ns id e s h m a = elim (Bool-cases (unique ns)) [
  | inl y ↦ rw (y, h, with_service) refl
  | inr n ↦ rw (n, with_service) refl
]

undropped :
    (name : String) (id tag : ℕ) (e : ClientEvent) (s : Server)
    → validate_instance_id id e s ≡ none
    → unary_drop_subscription_service name id tag e s ≡ (error, s)
unfolding unary_drop_subscription_service
undropped name id tag e s h = rw (h, unary_drop_subscription_service) refl

-- A stream cannot take part in a service for an instance of another stream: to register, to activate or
-- to drop a tag for it is answered by an error, and nothing changes.
pub foreign_instance_refused :
    (stream id : ℕ) (i : ClientInstance) (name role : String) (ns : List String) (tag : ℕ)
    (s : Server)
    → lookup id s.connections.instances ≡ some i
    → i.stream_writer ≢ stream
    → let refused : Handled × Server = (responds instance_error, s) in
      (handle_event (event stream (register_service name role ns id)) s ≡ refused)
      × (handle_event (event stream (activate_service name role ns id tag)) s ≡ refused)
      × (handle_event (event stream (drop_service name id tag)) s ≡ refused)
unfolding handle_event unary_response
foreign_instance_refused stream id i name role ns tag s h n =
    let at : (m : Message) → validate_instance_id id (event stream m) s ≡ none =
      λ m. invalid id i (event stream m) s h n in
    let r : Message = register_service name role ns id in
    let a : Message = activate_service name role ns id tag in
    let d : Message = drop_service name id tag in
    (
      unfold unary_register_subscription_service in
          ap (respond (event stream r)) (
            unserved {A = ℕ} name role ns id (event stream r) s (at r)
              (λ k t. register_instance k role ns t) (λ tag'. service_registered name role tag')),
      unfold unary_activate_subscription_service in
          ap (respond (event stream a)) (
            unserved {A = Unit {0}} name role ns id (event stream a) s (at a)
              (λ k t. activate_instance k role ns tag t) (λ u. ack)),
      ap (respond (event stream d)) (undropped name id tag (event stream d) s (at d)),
    )

unused-remove : (tag : ℕ) (m : List Entry) → uses tag m ≡ 0 → remove_tag tag m ≡ none
unfolding remove_tag
unused-remove tag [] h = refl
unused-remove tag ((j, t) ∷ m) h = ground (arith, h, unused-remove tag m)

-- A request to drop a tag that the service does not hold ends the server process: the instance that it
-- names only has to be registered on the stream.
pub drop_unheld_tag-died :
    (stream id : ℕ) (i : ClientInstance) (name : String) (t : Service) (tag : ℕ) (s : Server)
    → lookup id s.connections.instances ≡ some i
    → i.stream_writer ≡ stream
    → find_service name s.services ≡ some t
    → uses tag t.instance_tags ≡ 0
    → (handle_event (event stream (drop_service name id tag)) s).0 ≡ died
unfolding handle_event unary_drop_subscription_service unary_response
drop_unheld_tag-died stream id i name t tag s h own f u =
    let e = event stream (drop_service name id tag) in
    let valid : validate_instance_id id e s ≡ some i =
      unfold validate_instance_id get_instance in ground (arith, h, own) in
    let gone = unused-remove tag t.instance_tags u in
    rw (valid, f, unary_drop_subscription_service)
      (unfold Issuer.drop_tag in rw (gone, Issuer.drop_tag) refl)

erase_entry-others :
    (stream id other : ℕ) (es : List Entry)
    → stream ≢ other
    → of_instance other (erase_entry stream id es) ≡ of_instance other es
unfolding erase_entry
erase_entry-others stream id other [] ne = refl
erase_entry-others stream id other ((s, i) ∷ es) ne =
    ground (arith, ne, erase_entry-others stream id other es ne)

-- Any stream can drop an instance of any other: the request is acknowledged, the instance is gone, its worker
-- address is no longer in use while all others are as they were, and the list of the stream that
-- it was registered on is unchanged.
pub drop_foreign_worker :
    (stream owner id : ℕ) (i : ClientInstance) (x : String) (s : Server)
    → stream ≢ owner
    → lookup id s.connections.instances ≡ some i
    → let (a, s') = handle_event (event stream (drop_worker id)) s in
      (a ≡ responds ack)
      × (lookup id s'.connections.instances ≡ none)
      × (in_use x s'.connections.ucx_worker_addresses ≡ (
          if str_eq i.worker_address x then false else in_use x s.connections.ucx_worker_addresses))
      × (get_instance_ids owner s'.connections ≡ get_instance_ids owner s.connections)
unfolding handle_event unary_drop_worker unary_response reply_map
drop_foreign_worker stream owner id i x s ne h =
    let (gone, _, here, _) = drop_instance_lem stream id s.connections in
    let (r, freed) = here i h in
    (
      rw r refl,
      gone,
      freed x,
      unfold get_instance_ids Connections.drop_instance in
          rw (h, Connections.drop_instance, get_instance_ids)
            (ap (map (λ (t : Entry). t.1))
              (erase_entry-others stream id owner s.connections.instances_by_stream ne)),
    )
