-- ===== src/ControlPlane/Connections/Registration.antt =====
-- What a registration records, and what a lookup then finds.
use Prim.Native.String.{String}
use text.Mathlib.Text.{◌==◌ as str_eq}
use text.Mathlib.TextEquality.{eq_iff}
use mrc.Prelude.{
  ℕ, ◌≡◌, inl, inr, refl, sym, subst, ap, Bool, true, false, Option, none, some, List, [], ◌∷◌,
  ◌==◌, if◌then◌else◌, map, All, arith, Bool-cases, Option-cases,
}
use mrc.Prelude.Maps.{lookup, contains, assign, lookup-assign, contains-assign}
use mrc.ControlPlane.Events.{ClientInstance}
use mrc.ControlPlane.Issuer.{of_instance}
use mrc.ControlPlane.Versioned.{mark_as_modified}
use mrc.ControlPlane.Connections.{
  Manager, value, in_use, insert_address, Request, any_in_use, register_each, register_instances,
  WorkerAddress, lookup_workers,
}

-- The address that a request asks for an instance, and whether it asks for an address at all.
abbrev pub request_of : ℕ → List Request → Option String
request_of j [] = none
request_of j ((a, id) ∷ rs) = if id == j then some a else request_of j rs

abbrev pub requested : String → List Request → Bool
requested x [] = false
requested x ((a, id) ∷ rs) = if str_eq a x then true else requested x rs

abbrev pub registered : ℕ → Request → ClientInstance
registered writer (a, id) = record { id = id; stream_writer = writer; worker_address = a }

abbrev pub or_else : ℕ → ℕ → Option String → Option ClientInstance → Option ClientInstance
or_else writer j none o = o
or_else writer j (some a) o = some (registered writer (a, j))

pub in_use-insert_address :
    (x a : String) (bs : List String)
    → in_use x (insert_address a bs) ≡ (if str_eq a x then true else in_use x bs)
unfolding insert_address
in_use-insert_address x a bs = ground (arith, eq_iff a x)

abbrev enter : ℕ → Request → Manager → Manager
enter writer (a, id) m = record m {
  ucx_worker_addresses = insert_address a m.ucx_worker_addresses;
  instances = assign id (registered writer (a, id)) m.instances;
}

-- What the loop has done when it returns the ids.
register_each-cons :
    (writer : ℕ) (a : String) (id : ℕ) (rs : List Request) (ids : List ℕ) (m : Manager)
    → (register_each writer ((a, id) ∷ rs) m).0 ≡ some ids
    → (l : List ℕ) × (contains id m.instances ≡ false)
      × ((register_each writer rs (enter writer (a, id) m)).0 ≡ some l)
      × (ids ≡ id ∷ l)
      × ((register_each writer ((a, id) ∷ rs) m).1
          ≡ (register_each writer rs (enter writer (a, id) m)).1)
unfolding register_each
register_each-cons writer a id rs ids m e = elim (Bool-cases (contains id m.instances)) [
  | inl old ↦ absurd (ground arith)
  | inr new ↦ elim (Option-cases (register_each writer rs (enter writer (a, id) m)).0) [
    | inl bad ↦ absurd (ground arith)
    | inr (l, good) ↦ (l, new, good, ground arith, ground arith)
  ]
]

old_not_requested :
    (writer j : ℕ) (rs : List Request) (ids : List ℕ) (m : Manager)
    → (register_each writer rs m).0 ≡ some ids
    → contains j m.instances ≡ true
    → request_of j rs ≡ none
old_not_requested writer j [] ids m e c = refl
old_not_requested writer j ((a, id) ∷ rs) ids m e c =
    let (l, new, good, _, _) = register_each-cons writer a id rs ids m e in
    let t : Manager = enter writer (a, id) m in
    ground (
      arith,
      old_not_requested writer j rs l t good,
      contains-assign id j (registered writer (a, id)) m.instances,
    )

pub lookup-register_each :
    (writer j : ℕ) (rs : List Request) (ids : List ℕ) (m : Manager)
    → (register_each writer rs m).0 ≡ some ids
    → lookup j (register_each writer rs m).1.instances
      ≡ or_else writer j (request_of j rs) (lookup j m.instances)
unfolding register_each
lookup-register_each writer j [] ids m e = refl
lookup-register_each writer j ((a, id) ∷ rs) ids m e =
    let (l, new, good, _, same) = register_each-cons writer a id rs ids m e in
    let i = registered writer (a, id) in
    let t : Manager = enter writer (a, id) m in
    rw same (
      ground (
        arith,
        lookup-register_each writer j rs l t good,
        old_not_requested writer j rs l t good,
        contains-assign id j i m.instances,
        lookup-assign id j i m.instances,
      ))

in_use-register_each :
    (writer : ℕ) (x : String) (rs : List Request) (ids : List ℕ) (m : Manager)
    → (register_each writer rs m).0 ≡ some ids
    → in_use x (register_each writer rs m).1.ucx_worker_addresses
      ≡ (if requested x rs then true else in_use x m.ucx_worker_addresses)
unfolding register_each
in_use-register_each writer x [] ids m e = refl
in_use-register_each writer x ((a, id) ∷ rs) ids m e =
    let (l, new, good, _, same) = register_each-cons writer a id rs ids m e in
    rw same (
      ground (
        arith,
        in_use-register_each writer x rs l (enter writer (a, id) m) good,
        in_use-insert_address x a m.ucx_worker_addresses,
      ))

ids-register_each :
    (writer : ℕ) (rs : List Request) (ids : List ℕ) (m : Manager)
    → (register_each writer rs m).0 ≡ some ids
    → ids ≡ map (λ r. r.1) rs
unfolding register_each
ids-register_each writer [] ids m e = ground arith
ids-register_each writer ((a, id) ∷ rs) ids m e =
    let (l, new, good, shape, _) = register_each-cons writer a id rs ids m e in
    rw (shape, ids-register_each writer rs l (enter writer (a, id) m) good)

-- Every request has got its instance.
found-register_each :
    (writer : ℕ) (rs : List Request) (ids : List ℕ) (m : Manager)
    → (register_each writer rs m).0 ≡ some ids
    → All (λ r. lookup r.1 (register_each writer rs m).1.instances ≡ some (registered writer r)) rs
found-register_each writer [] ids m e = tt
found-register_each writer ((a, id) ∷ rs) ids m e =
    let (l, new, good, _, same) = register_each-cons writer a id rs ids m e in
    (
      ground (arith, lookup-register_each writer id ((a, id) ∷ rs) ids m e),
      subst (λ t. All (λ r. lookup r.1 t.instances ≡ some (registered writer r)) rs) (sym same)
          (found-register_each writer rs l (enter writer (a, id) m) good),
    )

pub accepted :
    (writer : ℕ) (rs : List Request) (m : Manager) (r : ℕ × List ℕ)
    → (register_instances writer rs m).0 ≡ value r
    → (any_in_use rs m.ucx_worker_addresses ≡ false)
      × (of_instance writer m.instances_by_stream ≡ [])
      × ((register_each writer rs m).0 ≡ some r.1)
      × (r.0 ≡ writer)
      × ((register_instances writer rs m).1 ≡ record (register_each writer rs m).1 {
        version = mark_as_modified (register_each writer rs m).1.version;
      })
unfolding register_instances
accepted writer rs m r e = ground arith

-- A registration that is accepted answers with the stream's id and the ids of the new instances.
-- Each requested instance is then registered with its address and writer, every other lookup is as
-- before, and exactly the requested addresses have come into use.
pub register_instances_lem :
    (writer : ℕ) (rs : List Request) (m : Manager) (machine : ℕ) (ids : List ℕ)
    → (register_instances writer rs m).0 ≡ value (machine, ids)
    → let m' = (register_instances writer rs m).1 in
      (machine ≡ writer)
      × (ids ≡ map (λ r. r.1) rs)
      × All (λ r. lookup r.1 m'.instances ≡ some (registered writer r)) rs
      × ((j : ℕ) → request_of j rs ≡ none → lookup j m'.instances ≡ lookup j m.instances)
      × ((x : String)
          → in_use x m'.ucx_worker_addresses
            ≡ (if requested x rs then true else in_use x m.ucx_worker_addresses))
register_instances_lem writer rs m machine ids e =
    let (_, _, good, same_id, shape) = accepted writer rs m (machine, ids) e in
    let found = found-register_each writer rs ids m good in
    (
      same_id,
      ids-register_each writer rs ids m good,
      subst (λ t. All (λ r. lookup r.1 t.instances ≡ some (registered writer r)) rs) (sym shape)
          found,
      λ j o. rw shape (ground (arith, lookup-register_each writer j rs ids m good)),
      λ x. rw shape (in_use-register_each writer x rs ids m good),
    )

abbrev pub answer : ℕ → Request → WorkerAddress
answer writer (a, id) = record { instance_id = id; machine_id = writer; worker_address = a }

lookup_found :
    (writer : ℕ) (rs : List Request) (m : Manager)
    → All (λ r. lookup r.1 m.instances ≡ some (registered writer r)) rs
    → lookup_workers (map (λ r. r.1) rs) m ≡ map (answer writer) rs
unfolding lookup_workers
lookup_found writer [] m h = refl
lookup_found writer ((a, id) ∷ rs) m h =
    rw (h.0, lookup_workers) (ap (◌∷◌ (answer writer (a, id))) (lookup_found writer rs m h.1))

-- After a registration that is accepted, a lookup of the ids that it answered gives, in order, the
-- stream and the addresses that were registered.
pub lookup_workers-register_instances :
    (writer : ℕ) (rs : List Request) (m : Manager) (machine : ℕ) (ids : List ℕ)
    → (register_instances writer rs m).0 ≡ value (machine, ids)
    → lookup_workers ids (register_instances writer rs m).1 ≡ map (answer machine) rs
lookup_workers-register_instances writer rs m machine ids e =
    let (w, is, found, _, _) = register_instances_lem writer rs m machine ids e in
    rw (is, w) (lookup_found writer rs _ found)
