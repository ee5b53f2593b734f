-- ===== src/ControlPlane/Client/Following.antt =====
-- What a client knows of the instances after an update of the server.
use Prim.Native.String.{String}
use mrc.Prelude.{
  ℕ, ◌<◌, ◌≡◌, refl, ◌∙◌, ap, Bool, true, false, Option, none, some, List, [], ◌∷◌, ◌==◌,
  if◌then◌else◌, map, elem, arith, Option-cases, inl, inr,
}
use mrc.Prelude.Maps.{
  Map, lookup, contains, assign, is_some, lookup-assign, lookup-erase, contains-assign,
  contains-lookup,
}
use mrc.ControlPlane.Events.{ClientInstance, TaggedInstance}
use mrc.ControlPlane.Issuer.{Entry}
use mrc.ControlPlane.Connections.{Manager, WorkerAddress, lookup_workers, make_update}
use mrc.ControlPlane.Client.{
  ConnectionsManager, id_set, difference, remove_instances, add_addresses, fetch_addresses,
  do_connections_update, do_update, update,
}

-- Whether the message names the instance.
abbrev pub lists : ℕ → List TaggedInstance → Bool
lists id [] = false
lists id (t ∷ ts) = if t.instance_id == id then true else lists id ts

id_set-contains : (id : ℕ) (ts : List TaggedInstance) → contains id (id_set ts) ≡ lists id ts
unfolding id_set
id_set-contains id [] = unfold contains in refl
id_set-contains id (t ∷ ts) =
    ground (arith, contains-assign t.instance_id id tt (id_set ts), id_set-contains id ts)

same : {A : Type 0} {k j : ℕ} (f : ℕ → A) → (k == j) ≡ true → f k ≡ f j
same {k = k} {j = j} f e = ap f {x = k} {y = j} (ground (arith, e))

difference-elem :
    {V W : Type 0} (id : ℕ) (m : Map V) (w : Map W)
    → elem id (difference m w) ≡ (if contains id w then false else contains id m)
unfolding difference contains
difference-elem id [] w = ground arith
difference-elem id ((k, v) ∷ m) w =
    ground (arith, same {k = k} {j = id} (λ i. contains i w), difference-elem id m w)

remove-lookup :
    (id : ℕ) (ids : List ℕ) (m : ConnectionsManager)
    → lookup id (remove_instances ids m).worker_addresses
      ≡ (if elem id ids then none else lookup id m.worker_addresses)
unfolding remove_instances
remove-lookup id [] m = refl
remove-lookup id (k ∷ ids) m =
    remove-lookup id ids _ ∙ ground (arith, lookup-erase k id m.worker_addresses)

abbrev pub address_of : Option ClientInstance → Option String
address_of none = none
address_of (some i) = some i.worker_address

-- What a server's response to a request for the ids makes of an address.
abbrev known : Option ClientInstance → Option String → Option String
known none old = old
known (some i) old = some i.worker_address

add-lookup :
    (id : ℕ) (ids : List ℕ) (s : Manager) (w : Map String)
    → lookup id (add_addresses (lookup_workers ids s) w)
      ≡ (if elem id ids then known (lookup id s.instances) (lookup id w) else lookup id w)
unfolding add_addresses lookup_workers
add-lookup id [] s w = refl
add-lookup id (k ∷ ids) s w = elim (Option-cases (lookup k s.instances)) [
  | inl n ↦
      rw (lookup_workers, n)
        (ground
          (arith, same {k = k} {j = id} (λ j. lookup j s.instances), n, add-lookup id ids s w))
  | inr (i, e) ↦
      rw (lookup_workers, e, add_addresses)
        (add-lookup id ids s (assign k i.worker_address w)
          ∙ ground (
            arith,
            same {k = k} {j = id} (λ j. lookup j s.instances),
            e,
            lookup-assign k id i.worker_address w,
          ))
]

abbrev or_else : Option String → Option String → Option String
or_else none new = new
or_else (some a) new = some a

-- The server's answer to a request for workers.
abbrev pub answered : Manager → List ℕ → Option (List WorkerAddress)
answered s ids = some (lookup_workers ids s)

fetch-lookup :
    (id : ℕ) (ids : List ℕ) (s : Manager) (m : ConnectionsManager)
    → lookup id (fetch_addresses (answered s) ids m).worker_addresses ≡ (
        if elem id ids
        then known (lookup id s.instances) (lookup id m.worker_addresses)
        else lookup id m.worker_addresses)
unfolding fetch_addresses
fetch-lookup id [] s m = refl
fetch-lookup id (k ∷ ids) s m = add-lookup id (k ∷ ids) s m.worker_addresses

do_connections_update-lookup :
    (id : ℕ) (ts : List TaggedInstance) (s : Manager) (m : ConnectionsManager)
    → lookup id (do_connections_update (answered s) ts m).worker_addresses ≡ (
        if lists id ts
        then or_else (lookup id m.worker_addresses) (address_of (lookup id s.instances))
        else none)
unfolding do_connections_update
do_connections_update-lookup id ts s m =
    let new = id_set ts in
    let missing = difference new m.worker_addresses in
    let removed = difference m.worker_addresses new in
    fetch-lookup id missing s (remove_instances removed m)
    ∙ ground (
      arith,
      remove-lookup id removed m,
      difference-elem id new m.worker_addresses,
      difference-elem id m.worker_addresses new,
      id_set-contains id ts,
      contains-lookup id m.worker_addresses,
    )

nonce-remove : (ids : List ℕ) (m : ConnectionsManager) → (remove_instances ids m).nonce ≡ m.nonce
unfolding remove_instances
nonce-remove [] m = refl
nonce-remove (id ∷ ids) m = nonce-remove ids _

nonce-fetch :
    (ask : List ℕ → Option (List WorkerAddress)) (ids : List ℕ) (m : ConnectionsManager)
    → (fetch_addresses ask ids m).nonce ≡ m.nonce
unfolding fetch_addresses
nonce-fetch ask [] m = refl
nonce-fetch ask (id ∷ ids) m = elim (Option-cases (ask (id ∷ ids))) [
  | inl n ↦ rw (n, fetch_addresses) refl
  | inr (r, e) ↦ rw (e, fetch_addresses) refl
]

nonce-do_connections_update :
    (ask : List ℕ → Option (List WorkerAddress)) (ts : List TaggedInstance) (m : ConnectionsManager)
    → (do_connections_update ask ts m).nonce ≡ m.nonce
unfolding do_connections_update
nonce-do_connections_update ask ts m =
    let removed = difference m.worker_addresses (id_set ts) in
    nonce-fetch ask (difference (id_set ts) m.worker_addresses) (remove_instances removed m)
    ∙ nonce-remove removed m

-- The instances that have been activated on some stream.
abbrev pub active : ℕ → Manager → Bool
active id s = elem id (map (λ e. e.1) s.instances_by_stream)

-- Where client and server both know an instance, they know the same address.
abbrev pub Agrees : ConnectionsManager → Manager → Type 0
Agrees m s =
    (id : ℕ) (a : String) (i : ClientInstance)
    → lookup id m.worker_addresses ≡ some a
    → lookup id s.instances ≡ some i
    → a ≡ i.worker_address

lists-listing :
    (id : ℕ) (es : List Entry)
    → lists id (map (λ (j, i). record { instance_id = i; tag = j }) es)
      ≡ elem id (map (λ e. e.1) es)
lists-listing id [] = refl
lists-listing id ((j, i) ∷ es) = ground (arith, lists-listing id es)

agreed :
    (id : ℕ) (m : ConnectionsManager) (s : Manager)
    → Agrees m s
    → is_some (lookup id s.instances) ≡ true
    → or_else (lookup id m.worker_addresses) (address_of (lookup id s.instances))
      ≡ address_of (lookup id s.instances)
agreed id m s v k = elim (Option-cases (lookup id s.instances)) [
  | inl n ↦ ground (arith, n, k)
  | inr (i, e) ↦ elim (Option-cases (lookup id m.worker_addresses)) [
    | inl o ↦ rw (o, e) refl
    | inr (a, f) ↦ rw (f, e) (ap some (v id a i f e))
  ]
]

-- When a client that agrees with the server on the addresses handles the server's update, which is newer
-- than the last one that it has handled, and the server answers its request for workers in the same
-- state, in which every activated instance is registered: then the client knows the addresses of just
-- the activated instances, as the server has them, and all waiting promises are set.
pub update-make_update :
    (s : Manager) (m : ConnectionsManager)
    → m.nonce < s.version.current_nonce
    → Agrees m s
    → ((id : ℕ) → active id s ≡ true → is_some (lookup id s.instances) ≡ true)
    → (m' : ConnectionsManager) × (update (answered s) (make_update s) m ≡ some m')
      × (m'.nonce ≡ s.version.current_nonce)
      × (m'.update_promises ≡ 0)
      × ((id : ℕ)
          → lookup id m'.worker_addresses
            ≡ (if active id s then address_of (lookup id s.instances) else none))
unfolding update make_update do_update
update-make_update s m newer v k =
    let ts : List TaggedInstance =
      map (λ (j, i). record { instance_id = i; tag = j }) s.instances_by_stream in
    let before : ConnectionsManager = record m { nonce = s.version.current_nonce } in
    let after : ConnectionsManager = do_connections_update (answered s) ts before in
    (
      record after { update_promises = 0 },
      ground (arith, newer),
      nonce-do_connections_update (answered s) ts before,
      refl,
      λ id.
          do_connections_update-lookup id ts s before
          ∙ ground (arith, lists-listing id s.instances_by_stream, agreed id m s v, k id),
    )
