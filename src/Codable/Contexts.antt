-- ===== src/Codable/Contexts.antt =====
-- cpp/mrc/src/internal/codable/codable_storage.cpp: the contexts of nested objects.
use mrc.Prelude.{ℕ, zero, suc, ◌≡◌, refl, true, Option, none, some, List, [], ◌∷◌, ◌++◌, length}
use mrc.Prelude.Maps.{is_some}
use mrc.Codable.{Storage, nth, push_context, pop_context}
use mrc.Codable.Views.{nth-last}

nth-append :
    {A : Type 0} (i : ℕ) (d : A) (ds es : List A) → nth i ds ≡ some d → nth i (ds ++ es) ≡ some d
unfolding nth
nth-append i d [] es e = cc
nth-append zero d (x ∷ ds) es e = e
nth-append (suc i) d (x ∷ ds) es e = nth-append i d ds es e

module _ {M : Type 0} where
  -- The index of the object that the next `push_context` adds.
  abbrev pub next_index : Storage M → ℕ
  next_index s = length s.objects

  parent-pop_context : (p : Option ℕ) (s : Storage M) → (pop_context p s).parent ≡ p
  unfolding pop_context
  parent-pop_context none s = refl
  parent-pop_context (some i) s = refl

  acquired-pop_context :
      (p : Option ℕ) (s : Storage M)
      → s.is_acquired ≡ true
      → (pop_context p s).is_acquired ≡ is_some p
  unfolding pop_context
  acquired-pop_context none s e = refl
  acquired-pop_context (some i) s e = e

  -- An object whose context is opened within that of another one is added right after it, and the
  -- index that it has as its parent's is its own. Closing a context, with the index that opening it
  -- gave, restores the parent, and a context is still acquired just if there was a parent.
  pub push_context_lem :
      (outer inner : ℕ) (s : Storage M)
      → let (before, s1) = push_context outer s in
        let (within, s2) = push_context inner s1 in
        (nth (next_index s) s2.objects
          ≡ some (record {
            type_index_hash = outer;
            starting_descriptor_idx = length s.descriptors;
            parent_object_idx = s.parent;
          }))
        × (nth (next_index s1) s2.objects
            ≡ some (record {
              type_index_hash = inner;
              starting_descriptor_idx = length s.descriptors;
              parent_object_idx = some (next_index s1);
            }))
        × ((pop_context within s2).parent ≡ s1.parent)
        × ((pop_context within s2).is_acquired ≡ true)
        × ((pop_context before s1).parent ≡ s.parent)
        × ((pop_context before s1).is_acquired ≡ is_some s.parent)
  unfolding push_context
  push_context_lem outer inner s =
      let s1 = (push_context outer s).1 in
      (
        nth-append (length s.objects) _ _ _ (nth-last _ s.objects),
        nth-last _ s1.objects,
        unfold pop_context in refl,
        unfold pop_context in refl,
        parent-pop_context s.parent s1,
        acquired-pop_context s.parent s1 (unfold push_context in refl),
      )
