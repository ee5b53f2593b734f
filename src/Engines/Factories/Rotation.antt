-- ===== src/Engines/Factories/Rotation.antt =====
-- cpp/mrc/src/internal/runnable/engine_factory.cpp: the turns of the task queues.
use native.Mathlib.Nat.{mod-lt, mod-eq_of_lt, mod_self, mod-mod, mod-add-mod}
use mrc.Prelude.{
  ℕ, zero, suc, ◌+◌, ◌%◌, ◌<◌, ◌≡◌, refl, some, List, [], ◌∷◌, length, ◌==◌, if◌then◌else◌, arith,
  subst, sym, ap, ◌∙◌, Bool-cases, inl, inr,
}
use mrc.Engines.Factories.{FiberFactory, task_queue, add_queue, reusable_queues}

pub task_queue_exists :
    (i : ℕ) (pool : List ℕ) → i < length pool → (q : ℕ) × (task_queue i pool ≡ some q)
unfolding task_queue
task_queue_exists i [] l = absurd (omega arith)
task_queue_exists zero (q ∷ qs) l = (q, refl)
task_queue_exists (suc i) (q ∷ qs) l = task_queue_exists i qs (omega arith)

-- Each queue of the list is the one of the pool whose index is the offset plus its place, around the end.
abbrev pub InTurn : ℕ → List ℕ → List ℕ → Type 0
InTurn offset pool [] = Unit {0}
InTurn offset pool (q ∷ qs) =
    (task_queue (offset % length pool) pool ≡ some q) × InTurn (offset + 1) pool qs

InTurn-around :
    (i j : ℕ) (pool qs : List ℕ)
    → i % length pool ≡ j % length pool
    → InTurn i pool qs
    → InTurn j pool qs
InTurn-around i j pool [] e t = tt
InTurn-around i j pool (q ∷ qs) e (here, t) = (
  subst (λ r. task_queue r pool ≡ some q) e here,
  InTurn-around (i + 1) (j + 1) pool qs
      (sym (mod-add-mod i (length pool) 1)
        ∙ ap (λ (r : ℕ). (r + 1) % length pool) e
        ∙ mod-add-mod j (length pool) 1)
      t,
)

turned : (o n : ℕ) → o < n → (if o + 1 == n then 0 else o + 1) ≡ (o + 1) % n
turned o n l = elim (Bool-cases (o + 1 == n)) [
  | inl y ↦
      let e : o + 1 ≡ n = ground (arith, y) in rw y (sym (ap (λ (r : ℕ). r % n) e ∙ mod_self n))
  | inr z ↦ rw z (sym (mod-eq_of_lt (ground (arith, z, l))))
]

-- From an offset within the pool, a launch on any number of processing elements gets the queues in turn
-- and leaves the offset where the next one goes on.
pub reusable_queues_lem :
    (count : ℕ) (f : FiberFactory)
    → f.offset < length f.pool
    → (qs : List ℕ) × (f' : FiberFactory) × (reusable_queues count f ≡ (some qs, f'))
      × (length qs ≡ count)
      × InTurn f.offset f.pool qs
      × (f'.pool ≡ f.pool)
      × (f'.offset ≡ (f.offset + count) % length f.pool)
unfolding reusable_queues add_queue
reusable_queues_lem zero f l = (
  [],
  f,
  refl,
  refl,
  tt,
  refl,
  sym (ap (λ (r : ℕ). r % length f.pool) (omega arith) ∙ mod-eq_of_lt l),
)
reusable_queues_lem (suc count) f l =
    let n = length f.pool in
    let o = f.offset in
    let f1 : FiberFactory = record f { offset = (o + 1) % n } in
    let (q, e) = task_queue_exists o f.pool l in
    let (qs, f', out, size, t, same, at_end) =
      reusable_queues_lem count f1 (mod-lt (o + 1) (omega (arith, l))) in
    (
      q ∷ qs,
      f',
      rw (reusable_queues, e, turned o n l, out) refl,
      ap suc size,
      (
        subst (λ r. task_queue r f.pool ≡ some q) (sym (mod-eq_of_lt l)) e,
        InTurn-around ((o + 1) % n) (o + 1) f.pool qs (mod-mod (o + 1) n) t,
      ),
      same,
      at_end ∙ mod-add-mod (o + 1) n count ∙ ap (λ (r : ℕ). r % n) (omega arith),
    )
