-- ===== src/ControlPlane/Issuer.antt =====
-- `TaggedIssuer` of cpp/mrc/src/internal/control_plane/server/tagged_issuer.{hpp,cpp}: the tags of
-- the registered instances. The virtual `do_drop_tag` of the derived class is a parameter, a function
-- on that class's own state. The multimap is the list of its entries in the order of iteration.
pub mod Entries
pub mod Registry
use mrc.Prelude.{
  ℕ, zero, suc, Bool, true, false, not, Option, none, some, List, [], ◌∷◌, ltb, ◌==◌, if◌then◌else◌,
  length, select,
}
use mrc.ControlPlane.Tagged.{Tagged, next_tag}

-- Instance id and tag.
abbrev pub Entry : Type 0
Entry = ℕ × ℕ

pub record Issuer (S : Type 0) : Type 0 where
  pub tagged : Tagged
  pub instance_tags : List Entry
  pub derived : S

-- `emplace` of a multimap: behind the entries with the same key.
unfoldable pub emplace : ℕ → ℕ → List Entry → List Entry
emplace k v [] = (k, v) ∷ []
emplace k v ((j, w) ∷ m) = if ltb k j then (k, v) ∷ (j, w) ∷ m else (j, w) ∷ emplace k v m

-- `equal_range`, and what lies outside it.
abbrev pub of_instance : ℕ → List Entry → List Entry
of_instance id = select (λ (j, t). j == id)

abbrev pub of_others : ℕ → List Entry → List Entry
of_others id = select (λ (j, t). not (j == id))

-- The entries without the first that has the tag, and whether there is one.
unfoldable pub remove_tag : ℕ → List Entry → Option (List Entry)
remove_tag tag [] = none
remove_tag tag ((j, t) ∷ m) =
    let rest = remove_tag tag m in
    if t == tag then some m else elim rest [ none ↦ none | some m' ↦ some ((j, t) ∷ m') ]

module _ {S : Type 0} where
  -- `none` is the overflow_error of `next_tag`, which comes before the map is changed.
  unfoldable pub register_instance_id : ℕ → Issuer S → Option ℕ × Issuer S
  register_instance_id id s =
      let (tag, t) = next_tag s.tagged in
      elim tag [
        | none ↦ (none, record s { tagged = t })
        | some v ↦ (some v, record s { tagged = t; instance_tags = emplace id v s.instance_tags })
      ]

  pub tag_count : Issuer S → ℕ
  tag_count s = length s.instance_tags

  pub tag_count_for_instance_id : ℕ → Issuer S → ℕ
  tag_count_for_instance_id id s = length (of_instance id s.instance_tags)

  module _ (do_drop_tag : ℕ → S → S) where
    -- `do_drop_tag` on the tags of a range, in order.
    unfoldable pub drop_each : List Entry → S → S
    drop_each [] d = d
    drop_each ((j, t) ∷ m) d = drop_each m (do_drop_tag t d)

    unfoldable pub drop_all : Issuer S → Issuer S
    unfolding drop_each
    drop_all s = record s { instance_tags = []; derived = drop_each s.instance_tags s.derived }

    unfoldable pub drop_instance : ℕ → Issuer S → Issuer S
    unfolding drop_each
    drop_instance id s = record s {
      instance_tags = of_others id s.instance_tags;
      derived = drop_each (of_instance id s.instance_tags) s.derived;
    }

    -- The Boolean is false where the code throws invalid_argument.
    unfoldable pub drop_tag : ℕ → Issuer S → Bool × Issuer S
    drop_tag tag s = elim (remove_tag tag s.instance_tags) [
      | none ↦ (false, s)
      | some m ↦ (true, record s { instance_tags = m; derived = do_drop_tag tag s.derived })
    ]
