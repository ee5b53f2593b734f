-- ===== src/RemoteDescriptor/Tokens.antt =====
-- An object is kept until the last of its tokens has come back.
use mrc.Prelude.{
  ℕ, ◌+◌, ◌-◌, ◌≤◌, ◌<◌, ◌≡◌, ◌≢◌, refl, inl, inr, Option, none, some, List, [], ◌∷◌, ltb, ◌==◌,
  if◌then◌else◌, All, arith, Option-cases,
}
use mrc.Prelude.Maps.{Map, lookup, contains, lookup-assign, lookup-erase, contains-lookup}
use mrc.RemoteDescriptor.{
  DecrementMessage, Manager, storage_decrement, decrement_tokens, on_decrement, handle_each,
  keep_or_destroy,
}

-- The tokens that are out for an object; none of an object that is not stored.
abbrev pub out : Option ℕ → ℕ
out none = 0
out (some n) = n

abbrev pub tokens_out : ℕ → Manager → ℕ
tokens_out id m = out (lookup id m.stored_objects)

-- The tokens that messages return for an object.
abbrev pub returned : ℕ → List DecrementMessage → ℕ
returned id [] = 0
returned id (d ∷ ds) = (if d.object_id == id then d.tokens else 0) + returned id ds

-- A stored object has tokens out.
abbrev pub Positive : Manager → Type 0
Positive m = (id : ℕ) → lookup id m.stored_objects ≢ some 0

keep_lem :
    (i r j : ℕ) (m : Map ℕ)
    → lookup j (keep_or_destroy i r m)
      ≡ (if i == j then (if r == 0 then none else some r) else lookup j m)
keep_lem i r j m = ground (arith, lookup-assign i j r m, lookup-erase i j m)

decrement_lem :
    (d : DecrementMessage) (m : Manager)
    → Positive m
    → 0 < d.tokens
    → d.tokens ≤ tokens_out d.object_id m
    → (m' : Manager) × (on_decrement d m ≡ some m')
      × Positive m'
      × ((id : ℕ)
          → tokens_out id m' ≡ tokens_out id m - (if d.object_id == id then d.tokens else 0))
unfolding on_decrement decrement_tokens storage_decrement
decrement_lem d m v p h = elim (Option-cases (lookup d.object_id m.stored_objects)) [
  | inl n ↦ ground (arith, n)
  | inr (t, y) ↦
      let n = t - d.tokens in
      (
        record m { stored_objects = keep_or_destroy d.object_id n m.stored_objects },
        ground (arith, y),
        λ j e. ground (arith, keep_lem d.object_id n j m.stored_objects, v j, e),
        λ j. ground (arith, keep_lem d.object_id n j m.stored_objects, y),
      )
]

-- From a manager whose stored objects all have tokens out: however many messages arrive, as long as each
-- returns some tokens and together they return no more of an object than are out, no check fails, what is out drops by what came back, and an object is stored
-- as long as some of its tokens are out and no longer.
pub handle_each_lem :
    (ds : List DecrementMessage) (m : Manager)
    → Positive m
    → All (λ d. 0 < d.tokens) ds
    → ((id : ℕ) → returned id ds ≤ tokens_out id m)
    → (m' : Manager) × (handle_each ds m ≡ some m')
      × ((id : ℕ) → tokens_out id m' ≡ tokens_out id m - returned id ds)
      × ((id : ℕ) → contains id m'.stored_objects ≡ ltb 0 (tokens_out id m - returned id ds))
unfolding handle_each
handle_each_lem [] m v p h =
    (m, refl, λ id. omega arith, λ id. ground (arith, contains-lookup id m.stored_objects, v id))
handle_each_lem (d ∷ ds) m v p h =
    let (n, e, w, l) = decrement_lem d m v p.0 (let k = h d.object_id in ground (arith, k)) in
    let (m', f, g, c) = handle_each_lem ds n w p.1 (λ id. ground (arith, h id, l id)) in
    (
      m',
      rw (e, f, handle_each) refl,
      λ id. ground (arith, g id, l id),
      λ id. ground (arith, c id, l id),
    )
