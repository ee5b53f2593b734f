-- ===== src/ControlPlane/Connections/Dropping.antt =====
-- What is left of an instance, and of a stream, that was dropped.
use Prim.Native.String.{String}
use text.Mathlib.Text.{◌==◌ as str_eq}
use text.Mathlib.TextEquality.{eq_iff}
use mrc.Prelude.{
  ℕ, ◌≡◌, ◌≢◌, inl, inr, refl, ap, Bool, true, false, none, some, List, [], ◌∷◌, ◌==◌,
  if◌then◌else◌, map, arith, Bool-cases, Option-cases,
}
use mrc.Prelude.Maps.{Map, assign, lookup, contains, erase, lookup-erase, contains-erase}
use mrc.ControlPlane.Events.{ClientInstance}
use mrc.ControlPlane.Issuer.{Entry, of_instance, of_others}
use mrc.ControlPlane.Connections.{
  Manager, value, error, in_use, erase_address, erase_instances, drop_stream, drop_instance,
  get_instance_ids, activate_stream, Request, any_in_use, register_instances, register_each,
  add_stream, insert_address,
}
use mrc.ControlPlane.Connections.Registration.{
  in_use-insert_address, requested, register_instances_lem,
}

-- Whether some entry of a range has the instance.
abbrev pub has_instance : ℕ → List Entry → Bool
has_instance j [] = false
has_instance j ((s, i) ∷ es) = if i == j then true else has_instance j es

lookup-erase_instances :
    (j : ℕ) (es : List Entry) (is : Map ClientInstance)
    → lookup j (erase_instances es is) ≡ (if has_instance j es then none else lookup j is)
unfolding erase_instances
lookup-erase_instances j [] is = refl
lookup-erase_instances j ((s, i) ∷ es) is =
    ground (arith, lookup-erase_instances j es (erase i is), lookup-erase i j is)

none_of_others : (id : ℕ) (es : List Entry) → of_instance id (of_others id es) ≡ []
none_of_others id [] = refl
none_of_others id ((s, i) ∷ es) = ground (arith, none_of_others id es)

same_of_others :
    (id other : ℕ) (es : List Entry)
    → id ≢ other
    → of_instance other (of_others id es) ≡ of_instance other es
same_of_others id other [] ne = refl
same_of_others id other ((s, i) ∷ es) ne = ground (arith, same_of_others id other es ne)

-- Dropping a stream that exists removes it, its entries and exactly the instances that were
-- activated on it; the other streams keep theirs.
pub drop_stream_lem :
    (id : ℕ) (m : Manager)
    → contains id m.streams ≡ true
    → let m' = drop_stream id m in
      (contains id m'.streams ≡ false)
      × (get_instance_ids id m' ≡ [])
      × ((j : ℕ)
          → lookup j m'.instances ≡ (
              if has_instance j (of_instance id m.instances_by_stream)
              then none
              else lookup j m.instances))
      × ((other : ℕ) → id ≢ other → get_instance_ids other m' ≡ get_instance_ids other m)
unfolding drop_stream get_instance_ids
drop_stream_lem id m e =
    let es = m.instances_by_stream in
    rw e (
      ground (arith, contains-erase id id m.streams),
      ap (map (λ (t : Entry). t.1)) (none_of_others id es),
      λ j. lookup-erase_instances j (of_instance id es) m.instances,
      λ other ne. ap (map (λ (t : Entry). t.1)) (same_of_others id other es ne),
    )

addresses-drop_stream :
    (id : ℕ) (m : Manager) → (drop_stream id m).ucx_worker_addresses ≡ m.ucx_worker_addresses
unfolding drop_stream
addresses-drop_stream id m = ground arith

refused :
    (x : String) (rs : List Request) (used : List String)
    → requested x rs ≡ true
    → in_use x used ≡ true
    → any_in_use rs used ≡ true
unfolding any_in_use
refused x [] used r u = cc
refused x ((a, id) ∷ rs) used r u = ground (arith, eq_iff a x, refused x rs used)

refusal :
    (writer : ℕ) (rs : List Request) (m : Manager)
    → any_in_use rs m.ucx_worker_addresses ≡ true
    → register_instances writer rs m ≡ (error, m)
unfolding register_instances
refusal writer rs m e = rw e

in_use-register_each_keeps :
    (x : String) (writer : ℕ) (rs : List Request) (m : Manager)
    → in_use x m.ucx_worker_addresses ≡ true
    → in_use x (register_each writer rs m).1.ucx_worker_addresses ≡ true
unfolding register_each in_use
in_use-register_each_keeps x writer [] m u = u
in_use-register_each_keeps x writer ((a, id) ∷ rs) m u =
    let i : ClientInstance = record { id = id; stream_writer = writer; worker_address = a } in
    let m' : Manager = record m {
      ucx_worker_addresses = insert_address a m.ucx_worker_addresses;
      instances = assign id i m.instances;
    } in
    let more : in_use x m'.ucx_worker_addresses ≡ true =
      ground (arith, in_use-insert_address x a m.ucx_worker_addresses, u) in
    elim (Bool-cases (contains id m.instances)) [
      | inl y ↦ rw (y, register_each) u
      | inr n ↦ rw (n, register_each) (in_use-register_each_keeps x writer rs m' more)
    ]

-- The calls by which streams and instances come and streams go.
pub data Call : Type 0 where
  adds : ℕ → Bool → Call
  registers : ℕ → List Request → Call
  activates : ℕ → List ℕ → Call
  drops : ℕ → Call

pub after : List Call → Manager → Manager
after [] m = m
after (adds id writer ∷ cs) m = after cs (add_stream id writer m).1
after (registers writer rs ∷ cs) m = after cs (register_instances writer rs m).1
after (activates writer ids ∷ cs) m = after cs (activate_stream writer ids m)
after (drops id ∷ cs) m = after cs (drop_stream id m)

in_use-register :
    (x : String) (writer : ℕ) (rs : List Request) (m : Manager)
    → in_use x m.ucx_worker_addresses ≡ true
    → in_use x (register_instances writer rs m).1.ucx_worker_addresses ≡ true
unfolding register_instances
in_use-register x writer rs m u = ground (arith, in_use-register_each_keeps x writer rs m u)

in_use-after :
    (x : String) (cs : List Call) (m : Manager)
    → in_use x m.ucx_worker_addresses ≡ true
    → in_use x (after cs m).ucx_worker_addresses ≡ true
unfolding after
in_use-after x [] m u = u
in_use-after x (adds id writer ∷ cs) m u =
    in_use-after x cs _ (unfold add_stream in ground (arith, u))
in_use-after x (registers writer rs ∷ cs) m u =
    in_use-after x cs _ (in_use-register x writer rs m u)
in_use-after x (activates writer ids ∷ cs) m u = in_use-after x cs _ (unfold activate_stream in u)
in_use-after x (drops id ∷ cs) m u = in_use-after x cs _ (rw (addresses-drop_stream id m) u)

-- Dropping a stream does not free the worker addresses of its instances: once an address has been
-- registered on a stream and the stream was activated and dropped, a registration of the address on any
-- stream is refused and changes nothing, whatever streams are added, activated and dropped and whatever
-- is registered in between. A call that drops an instance is not among these.
pub dropped_address_refused :
    (writer other : ℕ) (rs rs' : List Request) (m : Manager) (machine : ℕ) (ids : List ℕ)
    (x : String) (cs : List Call)
    → (register_instances writer rs m).0 ≡ value (machine, ids)
    → requested x rs ≡ true
    → requested x rs' ≡ true
    → let later =
        after cs
          (drop_stream writer (activate_stream writer ids (register_instances writer rs m).1)) in
      register_instances other rs' later ≡ (error, later)
unfolding activate_stream
dropped_address_refused writer other rs rs' m machine ids x cs e p q =
    let m1 : Manager = (register_instances writer rs m).1 in
    let m2 : Manager = activate_stream writer ids m1 in
    let m3 : Manager = drop_stream writer m2 in
    let (_, _, _, _, used) = register_instances_lem writer rs m machine ids e in
    let still : in_use x m3.ucx_worker_addresses ≡ true =
      rw (addresses-drop_stream writer m2, used x, p) in
    let m4 : Manager = after cs m3 in
    refusal other rs' m4 (refused x rs' m4.ucx_worker_addresses q (in_use-after x cs m3 still))

in_use-erase_address :
    (x a : String) (bs : List String)
    → in_use x (erase_address a bs) ≡ (if str_eq a x then false else in_use x bs)
unfolding erase_address in_use
in_use-erase_address x a [] = ground arith
in_use-erase_address x a ((b ∷ bs)) =
    ground (arith, eq_iff a x, eq_iff b a, eq_iff b x, in_use-erase_address x a bs)

-- Dropping an instance forgets it and frees its address and no other; the other instances stay. If
-- there is no such instance, an error is answered and nothing changes.
pub drop_instance_lem :
    (writer id : ℕ) (m : Manager)
    → let (r, m') = drop_instance writer id m in
      (lookup id m'.instances ≡ none)
      × ((j : ℕ) → id ≢ j → lookup j m'.instances ≡ lookup j m.instances)
      × ((i : ClientInstance)
          → lookup id m.instances ≡ some i
          → (r ≡ value tt)
            × ((x : String)
                → in_use x m'.ucx_worker_addresses
                  ≡ (if str_eq i.worker_address x then false else in_use x m.ucx_worker_addresses)))
      × (lookup id m.instances ≡ none → (r ≡ error) × (m' ≡ m))
unfolding drop_instance
drop_instance_lem writer id m = elim (Option-cases (lookup id m.instances)) [
  | inl gone ↦ rw (gone, drop_instance) (gone, λ j ne. refl, λ i e. cc, λ e. (refl, refl))
  | inr (i, here) ↦
      rw (here, drop_instance)
        (
          ground (arith, lookup-erase id id m.instances),
          λ j ne. ground (arith, lookup-erase id j m.instances),
          λ k e. (
            refl,
            λ x. ground (arith, in_use-erase_address x i.worker_address m.ucx_worker_addresses),
          ),
          λ e. cc,
        )
]
