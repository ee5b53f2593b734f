-- ===== src/ControlPlane/Connections.antt =====
-- `ConnectionManager` of cpp/mrc/src/internal/control_plane/server/connection_manager.{hpp,cpp}: the
-- streams, the instances registered on them, and the worker addresses in use. A writer is the id of
-- its stream. An instance's id is the address of its object, which the allocator chooses: it is given
-- with each worker address. Closing a stream is left to the stream.
pub mod Registration
pub mod Dropping
use Prim.Native.String.{String}
use text.Mathlib.Text.{◌==◌ as str_eq}
use mrc.Prelude.{
  ℕ, Bool, true, false, not, Option, none, some, List, [], ◌∷◌, ◌==◌, if◌then◌else◌, select, map,
}
use mrc.Prelude.Maps.{Map, lookup, contains, assign, erase}
use mrc.ControlPlane.Events.{ClientInstance, TaggedInstance, connections, StateUpdate, Event}
use mrc.ControlPlane.Issuer.{Entry, emplace, of_instance, of_others}
use mrc.ControlPlane.Versioned.{VersionedState, initial, mark_as_modified, issue_update}

-- A stream, by whether it still has a writer. `instances_by_stream` holds stream and instance ids, and
-- the set of worker addresses is a list in any order.
pub record Manager : Type 0 where
  pub version : VersionedState
  pub streams : Map Bool
  pub instances : Map ClientInstance
  pub ucx_worker_addresses : List String
  pub instances_by_stream : List Entry

unfoldable pub create : Manager
unfolding initial
create = record {
  version = initial;
  streams = [];
  instances = [];
  ucx_worker_addresses = [];
  instances_by_stream = [];
}

-- `error` is an Expected's error; `fatal` a thrown fatal error or a failed check that ends the process.
pub data Reply (A : Type 0) : Type 0 where
  value : A → Reply A
  error fatal : Reply A

unfoldable pub in_use : String → List String → Bool
in_use a [] = false
in_use a (b ∷ bs) = if str_eq b a then true else in_use a bs

unfoldable pub insert_address : String → List String → List String
unfolding in_use
insert_address a bs = if in_use a bs then bs else a ∷ bs

unfoldable pub erase_address : String → List String → List String
erase_address a [] = []
erase_address a (b ∷ bs) = let rest = erase_address a bs in if str_eq b a then rest else b ∷ rest

unfoldable pub add_stream : ℕ → Bool → Manager → Reply (Unit {0}) × Manager
unfolding contains assign
add_stream id writer m =
    if contains id m.streams
    then (fatal, m)
    else (value tt, record m { streams = assign id writer m.streams })

-- The loop over the range of a stream.
unfoldable pub erase_instances : List Entry → Map ClientInstance → Map ClientInstance
unfolding erase
erase_instances [] is = is
erase_instances ((s, i) ∷ es) is = erase_instances es (erase i is)

unfoldable pub drop_stream : ℕ → Manager → Manager
unfolding contains erase_instances erase mark_as_modified
drop_stream id m =
    if contains id m.streams
    then record m {
      instances = erase_instances (of_instance id m.instances_by_stream) m.instances;
      instances_by_stream = of_others id m.instances_by_stream;
      streams = erase id m.streams;
      version = mark_as_modified m.version;
    }
    else m

unfoldable pub get_instance : ℕ → Manager → Reply ClientInstance
unfolding lookup
get_instance id m = elim (lookup id m.instances) [ none ↦ error | some i ↦ value i ]

unfoldable pub get_instance_ids : ℕ → Manager → List ℕ
get_instance_ids stream m = map (λ e. e.1) (of_instance stream m.instances_by_stream)

-- A requested worker address, with the id of the instance that is made for it.
abbrev pub Request : Type 0
Request = String × ℕ

unfoldable pub any_in_use : List Request → List String → Bool
unfolding in_use
any_in_use [] used = false
any_in_use ((a, id) ∷ rs) used = if in_use a used then true else any_in_use rs used

-- The registering loop; `none` is its fatal error.
unfoldable pub register_each : ℕ → List Request → Manager → Option (List ℕ) × Manager
unfolding contains assign insert_address
register_each writer [] m = (some [], m)
register_each writer ((a, id) ∷ rs) m =
    let i : ClientInstance = record { id = id; stream_writer = writer; worker_address = a } in
    let m' : Manager = record m {
      ucx_worker_addresses = insert_address a m.ucx_worker_addresses;
      instances = assign id i m.instances;
    } in
    let rest = register_each writer rs m' in
    if contains id m.instances
    then (none, m)
    else (elim rest.0 [ none ↦ none | some ids ↦ some (id ∷ ids) ], rest.1)

-- The response: the machine id and the instance ids.
unfoldable pub register_instances : ℕ → List Request → Manager → Reply (ℕ × List ℕ) × Manager
unfolding any_in_use register_each mark_as_modified
register_instances writer rs m =
    if any_in_use rs m.ucx_worker_addresses
    then (error, m)
    else elim (of_instance writer m.instances_by_stream) [
      | e ∷ es ↦ (error, m)
      | [] ↦
          (let (ids, m') = register_each writer rs m in
            elim ids [
              | none ↦ (fatal, m')
              | some l ↦ (value (writer, l), record m' { version = mark_as_modified m'.version })
            ])
    ]

-- Erases the first entry of the stream that has the instance.
unfoldable pub erase_entry : ℕ → ℕ → List Entry → List Entry
erase_entry stream id [] = []
erase_entry stream id ((s, i) ∷ es) =
    let rest = erase_entry stream id es in
    if s == stream then (if i == id then es else (s, i) ∷ rest) else (s, i) ∷ rest

unfoldable pub drop_instance : ℕ → ℕ → Manager → Reply (Unit {0}) × Manager
unfolding lookup erase erase_address erase_entry mark_as_modified
drop_instance writer id m = elim (lookup id m.instances) [
  | none ↦ (error, m)
  | some i ↦ (
    value tt,
    record m {
      ucx_worker_addresses = erase_address i.worker_address m.ucx_worker_addresses;
      instances_by_stream = erase_entry writer id m.instances_by_stream;
      instances = erase id m.instances;
      version = mark_as_modified m.version;
    },
  )
]

unfoldable pub insert_each : ℕ → List ℕ → List Entry → List Entry
unfolding emplace
insert_each stream [] es = es
insert_each stream (i ∷ is) es = insert_each stream is (emplace stream i es)

unfoldable pub activate_stream : ℕ → List ℕ → Manager → Manager
unfolding insert_each
activate_stream writer ids m = record m {
  instances_by_stream = insert_each writer ids m.instances_by_stream;
}

pub record WorkerAddress : Type 0 where
  pub instance_id : ℕ
  pub machine_id : ℕ
  pub worker_address : String

unfoldable pub lookup_workers : List ℕ → Manager → List WorkerAddress
unfolding lookup
lookup_workers [] m = []
lookup_workers (id ∷ ids) m =
    let rest = lookup_workers ids m in
    elim (lookup id m.instances) [
      | none ↦ rest
      | some i ↦
          record {
            instance_id = id;
            machine_id = i.stream_writer;
            worker_address = i.worker_address;
          }
          ∷ rest
    ]

unfoldable pub make_update : Manager → StateUpdate
make_update m = record {
  service_name = "connection_manager";
  nonce = m.version.current_nonce;
  instance_id = 0;
  body = connections (map (λ (s, i). record { instance_id = i; tag = s }) m.instances_by_stream);
}

-- The loop of `do_issue_update`: an event with tag 0, for all partitions, to each stream that has a
-- writer.
broadcast : Map Bool → StateUpdate → List Event
broadcast [] u = []
broadcast ((s, true) ∷ ss) u = record { stream = s; tag = 0; message = u } ∷ broadcast ss u
broadcast ((s, false) ∷ ss) u = broadcast ss u

unfoldable pub issue : Manager → List Event × Manager
unfolding issue_update broadcast make_update
issue m =
    let (due, v) = issue_update m.version in
    let m' : Manager = record m { version = v } in
    (if due then broadcast m'.streams (make_update m') else [], m')
