-- ===== src/Segment/Scopes.antt =====
-- cpp/mrc/src/internal/segment/builder_definition.cpp: what a name finds in each namespace.
use mrc.Prelude.{
  ℕ, ◌≡◌, refl, ap, ◌∙◌, Bool, true, false, not, ◌&&◌, ◌||◌, Option, none, some, List, [], ◌∷◌,
  ◌++◌, length, if◌then◌else◌, arith, Bool-cases, inl, inr,
}
use mrc.Prelude.Maps.{lookup, assign, lookup-assign}
use mrc.Segment.{Text, same, has_slash, find, put, starts_with, substr, Object}
use mrc.Segment.Builder.{
  Builder, Built, merged, global_prefix, normalize_name, find_object, has_object, add_object,
  enlist,
}
use mrc.Segment.Paths.{path, Proper, local_path, same_iff, find-put, same_stack, same-path}

-- The builder within the namespace of the components.
abbrev pub within : List Text → Builder → Builder
within s b = record b { namespace_stack = s; namespace_prefix = merged s }

not_global :
    (name : Text) (b : Builder)
    → has_slash name ≡ false
    → starts_with (global_prefix b) name ≡ false
unfolding starts_with global_prefix has_slash
not_global [] b n = refl
not_global (c ∷ name) b n = ground (arith, n)

-- A name without a slash is that of the path below the namespace, also with the prefix of the segment.
normalize_lem :
    (s : List Text) (name : Text) (b : Builder)
    → Proper s
    → has_slash name ≡ false
    → normalize_name name false (within s b) ≡ (global_prefix b ++ path s name, path s name)
unfolding normalize_name global_prefix
normalize_lem s name b p n = rw (normalize_name, not_global name b n, local_path s name p) refl

starts_with-append : (p s : Text) → starts_with p (p ++ s) ≡ true
unfolding starts_with
starts_with-append [] s = refl
starts_with-append (c ∷ p) s = ground (arith, starts_with-append p s)

substr-append : (p s : Text) → substr (length p) (p ++ s) ≡ s
unfolding substr
substr-append [] s = refl
substr-append (c ∷ p) s = substr-append p s

normalize_global : (s : Text) (b : Builder) → (normalize_name (global_prefix b ++ s) false b).1 ≡ s
unfolding normalize_name
normalize_global s b =
    rw (normalize_name, starts_with-append (global_prefix b) s) (substr-append (global_prefix b) s)

-- What the name finds once the object has been added.
abbrev pub found_in : List Text → Text → Built → Option (Option ℕ)
found_in t name (Built.built b) = some (find_object name (within t b))
found_in t name _ = none

-- The name that the object has got.
abbrev pub name_of : ℕ → Builder → Text
name_of o b = elim (lookup o b.object_store) [ none ↦ [] | some q ↦ q.name ]

-- What the full name of the object finds once it has been added.
abbrev pub full_name_in : List Text → ℕ → Built → Option (Option ℕ)
full_name_in t o (Built.built b) = some (find_object (name_of o b) (within t b))
full_name_in t o _ = none

-- The builder with the object, if it takes it.
abbrev pub with_object : Text → Text → ℕ → Object → Builder → Builder
with_object global_name local_name o p b = enlist local_name o p (record b {
  objects = put local_name o b.objects;
  object_store = assign o (record p { name = global_name }) b.object_store;
})

-- Whether the object is refused.
abbrev pub refused : Text → Object → Builder → Bool
refused name p b = has_object name b || (p.is_runnable && not p.is_launchable)

added_lem :
    {R : Type 0} (f : Built → Option R) (s : List Text) (name : Text) (o : ℕ) (p : Object)
    (b : Builder)
    → f Built.duplicate ≡ none
    → f Built.died ≡ none
    → Proper s
    → has_slash name ≡ false
    → f (add_object name o p (within s b)) ≡ (
        if refused name p (within s b)
        then none
        else f (
            Built.built
              (with_object (global_prefix b ++ path s name) (path s name) o p (within s b))))
unfolding add_object
added_lem f s name o p b du di v n = elim (Bool-cases (has_object name (within s b))) [
  | inl y ↦ rw (add_object, n, y) du
  | inr k ↦ elim (Bool-cases p.is_runnable) [
    | inr r ↦ rw (add_object, n, k, r, normalize_lem s name b v n) refl
    | inl r ↦ elim (Bool-cases p.is_launchable) [
      | inl l ↦ rw (add_object, n, k, r, l, normalize_lem s name b v n) refl
      | inr l ↦ rw (add_object, n, k, r, l) di
    ]
  ]
]

find_at :
    (t : List Text) (name : Text) (b : Builder)
    → Proper t
    → has_slash name ≡ false
    → find_object name (within t b) ≡ find (path t name) b.objects
unfolding find_object
find_at t name b v n = ap (λ r. find r.1 b.objects) (normalize_lem t name b v n)

-- An object that is added in one namespace is found in another only if the components are the same and the
-- name is; every other name finds what it found before. Names have no slash, and the components neither,
-- nor is one empty. The object is not added if its name finds one already or if it is to run and is not
-- launchable.
pub find-add_object :
    (s t : List Text) (name other : Text) (o : ℕ) (p : Object) (b : Builder)
    → Proper s
    → Proper t
    → has_slash name ≡ false
    → has_slash other ≡ false
    → found_in t other (add_object name o p (within s b)) ≡ (
        if refused name p (within s b)
        then none
        else some
            (if same_stack s t && same name other then some o else find_object other (within t b)))
unfolding enlist
find-add_object s t name other o p b v w n m =
    let local_name = path s name in
    let after_it = with_object (global_prefix b ++ local_name) local_name o p (within s b) in
    let found : find_object other (within t after_it)
        ≡ (if same_stack s t && same name other then some o else find_object other (within t b)) =
      find_at t other after_it w m
      ∙ find-put (path t other) local_name o b.objects
      ∙ ground (arith, same-path s t name other v w n m, find_at t other b w m) in
    added_lem (found_in t other) s name o p b refl refl v n
    ∙ ap (λ r. if refused name p (within s b) then none else some r) found

-- The name that an object gets when it is added finds it from every namespace.
pub find-full_name :
    (s t : List Text) (name : Text) (o : ℕ) (p : Object) (b : Builder)
    → Proper s
    → has_slash name ≡ false
    → full_name_in t o (add_object name o p (within s b))
      ≡ (if refused name p (within s b) then none else some (some o))
unfolding enlist find_object global_prefix
find-full_name s t name o p b v n =
    let local_name = path s name in
    let after_it = with_object (global_prefix b ++ local_name) local_name o p (within s b) in
    let q : Object = record p { name = global_prefix b ++ local_name } in
    let stored : lookup o (assign o q b.object_store) ≡ some q =
      ground (arith, lookup-assign o o q b.object_store) in
    let named : name_of o after_it ≡ global_prefix b ++ local_name =
      ap (λ r. elim r as (λ z. Text) [ none ↦ [] | some x ↦ x.name ]) stored in
    let found : find_object (name_of o after_it) (within t after_it) ≡ some o =
      ap (λ k. find_object k (within t after_it)) named
      ∙ ap (λ k. find k after_it.objects) (normalize_global local_name (within t after_it))
      ∙ find-put local_name local_name o b.objects
      ∙ ground (arith, same_iff local_name local_name) in
    added_lem (full_name_in t o) s name o p b refl refl v n
    ∙ ap (λ r. if refused name p (within s b) then none else some r) found
