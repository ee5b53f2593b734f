-- ===== src/ControlPlane/Client.antt =====
-- The clients' side of the connections: `StateManager` and `ConnectionsManager` of
-- cpp/mrc/src/internal/control_plane/client/{state_manager,connections_manager}.{hpp,cpp}. A request to
-- the server is a parameter that gives the response. A set of ids is a list that is sorted by
-- `assign`, without values.
pub mod Following
use Prim.Native.String.{String}
use mrc.Prelude.{ℕ, ◌+◌, Option, none, some, List, [], ◌∷◌, ◌++◌, ltb, ◌==◌, if◌then◌else◌, length}
use mrc.Prelude.Maps.{Map, lookup, contains, assign, erase}
use mrc.ControlPlane.Events.{
  TaggedInstance, StateUpdate, Body, connections, update_subscription_service,
  drop_subscription_service,
}
use mrc.ControlPlane.Connections.{WorkerAddress}

-- `update_promises` counts those that have not been set.
pub record ConnectionsManager : Type 0 where
  pub nonce : ℕ
  pub update_promises : ℕ
  pub machine_id : ℕ
  pub instance_ids : List ℕ
  pub worker_addresses : Map String
  pub update_channels : Map (Unit {0})

unfoldable pub create : ConnectionsManager
create = record {
  nonce = 1;
  update_promises = 0;
  machine_id = 0;
  instance_ids = [];
  worker_addresses = [];
  update_channels = [];
}

unfoldable pub update_future : ConnectionsManager → ConnectionsManager
update_future m = record m { update_promises = m.update_promises + 1 }

-- The loop over the ids of the response, with the addresses of the resources in the same order.
unfoldable pub add_instances : List (ℕ × String) → ConnectionsManager → ConnectionsManager
unfolding assign
add_instances [] m = m
add_instances ((id, address) ∷ rs) m = add_instances rs (record m {
  instance_ids = m.instance_ids ++ (id ∷ []);
  worker_addresses = assign id address m.worker_addresses;
  update_channels = assign id tt m.update_channels;
})

unfoldable pub zip : List ℕ → List String → List (ℕ × String)
zip [] addresses = []
zip (id ∷ ids) [] = []
zip (id ∷ ids) (a ∷ addresses) = (id, a) ∷ zip ids addresses

-- With the response's machine id and instance ids; `none` is a failed check.
unfoldable pub register_ucx_addresses :
    List String → ℕ → List ℕ → ConnectionsManager → Option ConnectionsManager
unfolding add_instances zip
register_ucx_addresses addresses machine_id ids m =
    if length ids == length addresses
    then some (add_instances (zip ids addresses) (record m { machine_id = machine_id }))
    else none

unfoldable pub id_set : List TaggedInstance → Map (Unit {0})
unfolding assign
id_set [] = []
id_set (t ∷ ts) = assign t.instance_id tt (id_set ts)

-- `std::set_difference` of the keys of both maps.
unfoldable pub difference : {V W : Type 0} → Map V → Map W → List ℕ
unfolding contains
difference [] w = []
difference ((k, v) ∷ m) w = let rest = difference m w in if contains k w then rest else k ∷ rest

unfoldable pub remove_instances : List ℕ → ConnectionsManager → ConnectionsManager
unfolding erase
remove_instances [] m = m
remove_instances (id ∷ ids) m = remove_instances ids (record m {
  worker_addresses = erase id m.worker_addresses;
  update_channels = erase id m.update_channels;
})

unfoldable pub add_addresses : List WorkerAddress → Map String → Map String
unfolding assign
add_addresses [] m = m
add_addresses (w ∷ ws) m = add_addresses ws (assign w.instance_id w.worker_address m)

-- Asks for the addresses of the ids, if there are any; a request that fails is logged.
unfoldable pub fetch_addresses :
    (List ℕ → Option (List WorkerAddress)) → List ℕ → ConnectionsManager → ConnectionsManager
unfolding add_addresses
fetch_addresses ask [] m = m
fetch_addresses ask (id ∷ ids) m = elim (ask (id ∷ ids)) [
  | none ↦ m
  | some resp ↦ record m { worker_addresses = add_addresses resp m.worker_addresses }
]

unfoldable pub do_connections_update :
    (List ℕ → Option (List WorkerAddress))
    → List TaggedInstance
    → ConnectionsManager
    → ConnectionsManager
unfolding id_set difference remove_instances fetch_addresses
do_connections_update ask tagged_instances m =
    let new_instance_ids = id_set tagged_instances in
    let missing = difference new_instance_ids m.worker_addresses in
    let removed = difference m.worker_addresses new_instance_ids in
    fetch_addresses ask missing (remove_instances removed m)

-- `none` is LOG(FATAL).
unfoldable pub do_update :
    (List ℕ → Option (List WorkerAddress)) → Body → ConnectionsManager → Option ConnectionsManager
unfolding do_connections_update
do_update ask (connections ts) m = some (do_connections_update ask ts m)
do_update ask (update_subscription_service role ts) m = none
do_update ask (drop_subscription_service role tag) m = none

-- `StateManager::update`: a message that is not newer is passed over.
unfoldable pub update :
    (List ℕ → Option (List WorkerAddress))
    → StateUpdate
    → ConnectionsManager
    → Option ConnectionsManager
unfolding do_update
update ask msg m =
    if ltb m.nonce msg.nonce
    then elim (do_update ask msg.body (record m { nonce = msg.nonce })) [
      | none ↦ none
      | some m' ↦ some (record m' { update_promises = 0 })
    ]
    else some m
