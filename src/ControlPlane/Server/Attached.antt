-- ===== src/ControlPlane/Server/Attached.antt =====
-- Every tag in the server's services belongs to an instance that is registered, and every latch waits.
use Prim.Native.String.{String}
use text.Mathlib.Text.{◌==◌ as str_eq}
use mrc.Prelude.{
  ℕ, ◌≡◌, subst, true, ◌&&◌, Option, none, some, List, [], ◌∷◌, all, map, All, arith, Option-cases,
  Bool-cases, inl, inr,
}
use mrc.Prelude.Maps.{Map, lookup, contains, erase, contains-erase, contains-lookup}
use mrc.ControlPlane.Events.{ClientInstance}
use mrc.ControlPlane.Issuer
use mrc.ControlPlane.Issuer.{Entry, of_instance}
use mrc.ControlPlane.Connections
use mrc.ControlPlane.Connections.{
  Reply, value, error, fatal, Manager, register_instances, activate_stream, erase_instances,
  get_instance_ids, get_instance, add_stream,
}
use mrc.ControlPlane.Subscriptions.{Service, Expected, has_role, do_drop_tag}
use mrc.ControlPlane.Server.{
  Server, Services, ClientEvent, Response, find_service, put_service, each_service, drop_instance,
  drop_each, drop_stream, validate_instance_id, unique,
}
use mrc.ControlPlane.Server.Handlers.{with_service}
use mrc.ControlPlane.Server.Tags.{Fine, drop_instance-Fine, Registered-weaken}
use mrc.ControlPlane.Server.Connected.{Keyed, drop_stream-Keyed}

abbrev pub AllFine : Map ClientInstance → Services → Type 0
AllFine is = All (λ (n, t). Fine is t)

pub record Attached (s : Server) : Type 0 where
  pub keyed : Keyed s.connections
  pub fine : AllFine s.connections.instances s.services

pub find-AllFine :
    (is : Map ClientInstance) (name : String) (ss : Services) (t : Service)
    → find_service name ss ≡ some t
    → AllFine is ss
    → Fine is t
unfolding find_service
find-AllFine is name [] t e v = cc
find-AllFine is name ((n, u) ∷ ss) t e v = elim (Bool-cases (str_eq n name)) [
  | inl y ↦ subst (Fine is) {x = u} {y = t} (ground (arith, e, y)) v.0
  | inr o ↦ find-AllFine is name ss t (ground (arith, e, o)) v.1
]

pub put-AllFine :
    (is : Map ClientInstance) (name : String) (ss : Services) (t : Service)
    → Fine is t
    → AllFine is ss
    → AllFine is (put_service name t ss)
unfolding put_service
put-AllFine is name [] t f v = tt
put-AllFine is name ((n, u) ∷ ss) t f v = elim (Bool-cases (str_eq n name)) [
  | inl y ↦ rw (y, put_service) (f, v.1)
  | inr o ↦ rw (o, put_service) (v.0, put-AllFine is name ss t f v.1)
]

pub each-AllFine :
    (is is' : Map ClientInstance) (f : Service → Service) (ss : Services)
    → ((t : Service) → Fine is t → Fine is' (f t))
    → AllFine is ss
    → AllFine is' (each_service f ss)
unfolding each_service
each-AllFine is is' f [] k v = tt
each-AllFine is is' f ((n, t) ∷ ss) k v = (k t v.0, each-AllFine is is' f ss k v.1)

pub AllFine-weaken :
    (is is' : Map ClientInstance) (ss : Services)
    → ((j : ℕ) → contains j is ≡ true → contains j is' ≡ true)
    → AllFine is ss
    → AllFine is' ss
AllFine-weaken is is' [] h v = tt
AllFine-weaken is is' ((n, t) ∷ ss) h v =
    ((v.0.0, Registered-weaken is is' t.instance_tags h v.0.1), AllFine-weaken is is' ss h v.1)

drop_each-AllFine :
    (es : List Entry) (is : Map ClientInstance) (ss : Services)
    → AllFine is ss
    → AllFine (erase_instances es is) (drop_each (map (λ e. e.1) es) ss)
unfolding drop_each erase_instances
drop_each-AllFine [] is ss v = v
drop_each-AllFine ((s, i) ∷ es) is ss v = drop_each-AllFine es (erase i is) (drop_instance i ss) (
    unfold drop_instance in
    each-AllFine is (erase i is) (Issuer.drop_instance do_drop_tag i) ss
      (λ t.
        drop_instance-Fine is (erase i is) i t
          (λ j ne c. ground (arith, contains-erase i j is, ne, c)))
      v)

abbrev pub AttachedIfAny : Option Server → Type 0
AttachedIfAny none = Unit {0}
AttachedIfAny (some s) = Attached s

dropped :
    (id : ℕ) (m : Manager)
    → contains id m.streams ≡ true
    → (Connections.drop_stream id m).instances
      ≡ erase_instances (of_instance id m.instances_by_stream) m.instances
unfolding Connections.drop_stream
dropped id m y = ground (arith, y)

pub drop_stream-Attached : (id : ℕ) (s : Server) → Attached s → AttachedIfAny (drop_stream id s)
unfolding drop_stream
drop_stream-Attached id s v = elim (Bool-cases (contains id s.connections.streams)) [
  | inl y ↦
      rw (y, drop_stream)
        (record {
          keyed = drop_stream-Keyed id s.connections y v.keyed;
          fine = rw (dropped id s.connections y) (
              unfold get_instance_ids in
              drop_each-AllFine (of_instance id s.connections.instances_by_stream)
                s.connections.instances s.services v.fine);
        })
  | inr n ↦ rw (n, drop_stream) tt
]

-- The server after a change of one service.
pub put-Attached :
    (name : String) (t : Service) (s : Server)
    → Fine s.connections.instances t
    → Attached s
    → Attached (record s { services = put_service name t s.services })
put-Attached name t s f v = record {
  keyed = v.keyed;
  fine = put-AllFine s.connections.instances name s.services t f v.fine;
}

-- The instance that a handler works for is registered under its id.
pub valid_instance :
    (id : ℕ) (e : ClientEvent) (s : Server) (i : ClientInstance)
    → Keyed s.connections
    → validate_instance_id id e s ≡ some i
    → contains i.id s.connections.instances ≡ true
unfolding validate_instance_id get_instance
valid_instance id e s i k h = elim (Option-cases (lookup id s.connections.instances)) [
  | inl n ↦ absurd (ground (arith, n, h))
  | inr (j, y) ↦ ground (arith, y, h, k id j y, contains-lookup id s.connections.instances)
]

pub with_service-Attached :
    {A : Type 0} (name role : String) (ns : List String) (id : ℕ) (e : ClientEvent)
    (method : ClientInstance → Service → Expected A × Service) (answer : A → Response) (s : Server)
    → ((i : ClientInstance) (t : Service)
        → contains i.id s.connections.instances ≡ true
        → Fine s.connections.instances t
        → Fine s.connections.instances (method i t).1)
    → Attached s
    → Attached (with_service name role ns id e method answer s).1
unfolding with_service
with_service-Attached name role ns id e method answer s k v = elim (Bool-cases (unique ns)) [
  | inr n ↦ rw (n, with_service) v
  | inl y ↦ elim (Option-cases (validate_instance_id id e s)) [
    | inl n ↦ rw (y, n, with_service) v
    | inr (i, p) ↦ elim (Option-cases (find_service name s.services)) [
      | inl n ↦ rw (y, p, n, with_service) v
      | inr (t, q) ↦
          elim (Bool-cases
            (has_role role t.derived.roles && all (λ n. has_role n t.derived.roles) ns)) [
              | inr n ↦ rw (y, p, q, n, with_service) v
              | inl g ↦
                  rw (y, p, q, g, with_service)
                    (put-Attached name (method i t).1 s
                      (k i t (valid_instance id e s i v.keyed p)
                        (find-AllFine s.connections.instances name s.services t q v.fine))
                      v)
            ]
    ]
  ]
]
