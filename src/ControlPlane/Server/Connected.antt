-- ===== src/ControlPlane/Server/Connected.antt =====
-- What the connections' operations leave of the registered instances.
use mrc.Prelude.{ℕ, ◌≡◌, ◌≢◌, true, some, List, arith, Option-cases, Bool-cases, ◌==◌, inl, inr}
use mrc.Prelude.Maps.{lookup, contains, contains-lookup}
use mrc.ControlPlane.Events.{ClientInstance}
use mrc.ControlPlane.Connections.{
  Manager, value, error, Request, register_each, register_instances, drop_instance, drop_stream,
}
use mrc.ControlPlane.Connections.Registration.{request_of, accepted, lookup-register_each}
use mrc.ControlPlane.Connections.Dropping.{drop_stream_lem, drop_instance_lem}

-- Each instance is stored under its id.
abbrev pub Keyed : Manager → Type 0
Keyed m = (j : ℕ) (i : ClientInstance) → lookup j m.instances ≡ some i → i.id ≡ j

-- No registered instance is lost.
abbrev pub Keeps : Manager → Manager → Type 0
Keeps m m' = (j : ℕ) → contains j m.instances ≡ true → contains j m'.instances ≡ true

pub accepted-Keeps :
    (writer : ℕ) (rs : List Request) (m : Manager) (r : ℕ × List ℕ)
    → Keyed m
    → (register_instances writer rs m).0 ≡ value r
    → Keyed (register_instances writer rs m).1 × Keeps m (register_instances writer rs m).1
accepted-Keeps writer rs m r k e =
    let (_, _, good, _, shape) = accepted writer rs m r e in
    rw shape (
      λ j i f. elim (Option-cases (request_of j rs)) [
        | inl o ↦ ground (arith, lookup-register_each writer j rs r.1 m good, k j i, f, o)
        | inr (a, o) ↦ ground (arith, lookup-register_each writer j rs r.1 m good, f, o)
      ],
      λ j c. elim (Option-cases (request_of j rs)) [
        | inl o ↦ ground (
          arith,
          lookup-register_each writer j rs r.1 m good,
          contains-lookup j m.instances,
          contains-lookup j (register_each writer rs m).1.instances,
          o,
        )
        | inr (a, o) ↦ ground (
          arith,
          lookup-register_each writer j rs r.1 m good,
          contains-lookup j (register_each writer rs m).1.instances,
          o,
        )
      ],
    )

-- A registration that is refused changes nothing.
pub refused-same :
    (writer : ℕ) (rs : List Request) (m : Manager)
    → (register_instances writer rs m).0 ≡ error
    → (register_instances writer rs m).1 ≡ m
unfolding register_instances
refused-same writer rs m e = ground arith

pub drop_instance-Keyed :
    (writer id : ℕ) (m : Manager) → Keyed m → Keyed (drop_instance writer id m).1
drop_instance-Keyed writer id m k j i e = elim (Bool-cases (id == j)) [
  | inl y ↦ ground (arith, (drop_instance_lem writer id m).0, e, y)
  | inr n ↦ k j i (ground (arith, (drop_instance_lem writer id m).1 j, e, n))
]

pub drop_instance-Keeps :
    (writer id : ℕ) (m : Manager) (j : ℕ)
    → id ≢ j
    → contains j m.instances ≡ true
    → contains j (drop_instance writer id m).1.instances ≡ true
drop_instance-Keeps writer id m j ne c = ground (
  arith,
  (drop_instance_lem writer id m).1 j ne,
  c,
  contains-lookup j m.instances,
  contains-lookup j (drop_instance writer id m).1.instances,
)

pub drop_stream-Keyed :
    (id : ℕ) (m : Manager) → contains id m.streams ≡ true → Keyed m → Keyed (drop_stream id m)
drop_stream-Keyed id m c k j i e = k j i (ground (arith, (drop_stream_lem id m c).2 j, e))
