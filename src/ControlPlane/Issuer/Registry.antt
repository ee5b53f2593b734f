-- ===== src/ControlPlane/Issuer/Registry.antt =====
-- The invariant of the registered tags, its preservation, and the effect of each operation.
use mrc.Prelude.{
  ℕ, suc, ◌+◌, ◌≤◌, ◌≡◌, ◌≢◌, refl, true, false, Option, none, some, List, [], ◌∷◌, length, arith,
}
use mrc.ControlPlane.Tagged.{next_tag, is_issued_tag, fresh}
use mrc.ControlPlane.Tagged.Bounds.{
  IsBlock, next_tag-value, next_tag-counter, is_issued_tag-next_tag,
}
use mrc.ControlPlane.Issuer.{
  Issuer, Entry, emplace, of_instance, of_others, remove_tag, register_instance_id, tag_count,
  tag_count_for_instance_id, drop_instance, drop_tag,
}
use mrc.ControlPlane.Issuer.Entries.{
  uses, Within, uses-emplace, length-emplace, length-of_instance-emplace, Within-emplace,
  uses_above, uses-of_others, Within-of_others, Removed, remove_tag-Removed,
}

-- The registered tags were issued by this object, and no two entries share one.
pub record Inv {S : Type 0} (s : Issuer S) : Type 0 where
  pub block : IsBlock s.tagged
  pub counted : 1 ≤ s.tagged.uid
  pub issued : Within (s.tagged.tag + 1) (s.tagged.tag + s.tagged.uid) s.instance_tags
  pub unique : (v : ℕ) → uses v s.instance_tags ≤ 1

counts_split :
    (id : ℕ) (m : List Entry)
    → (length m ≡ length (of_instance id m) + length (of_others id m))
      × (length (of_instance id (of_others id m)) ≡ 0)
counts_split id [] = (refl, refl)
counts_split id ((j, t) ∷ m) = let (p, q) = counts_split id m in (ground arith, ground arith)

counts_other :
    (id other : ℕ) (m : List Entry)
    → id ≢ other
    → length (of_instance other (of_others id m)) ≡ length (of_instance other m)
counts_other id other [] ne = refl
counts_other id other ((j, t) ∷ m) ne = ground (arith, counts_other id other m ne)

module _ {S : Type 0} where
  abbrev pub Registered : ℕ → ℕ → Issuer S → Issuer S → Type 0
  Registered id tag s t =
      Inv t
      × (uses tag s.instance_tags ≡ 0)
      × (uses tag t.instance_tags ≡ 1)
      × (is_issued_tag t.tagged tag ≡ true)
      × (tag_count t ≡ suc (tag_count s))
      × (tag_count_for_instance_id id t ≡ suc (tag_count_for_instance_id id s))
      × (t.derived ≡ s.derived)

  register_split :
      (id tag : ℕ) (s : Issuer S)
      → (register_instance_id id s).0 ≡ some tag
      → ((next_tag s.tagged).0 ≡ some tag)
        × ((register_instance_id id s).1 ≡ record s {
          tagged = (next_tag s.tagged).1;
          instance_tags = emplace id tag s.instance_tags;
        })
  unfolding register_instance_id
  register_split id tag s e = ground arith

  -- If the invariant holds, a registration that succeeds gives the instance a tag that no entry
  -- uses and that counts as issued, and adds one entry for it; the invariant and the derived state
  -- are kept.
  pub register_instance_id_lem :
      (id tag : ℕ) (s : Issuer S)
      → Inv s
      → (register_instance_id id s).0 ≡ some tag
      → Registered id tag s (register_instance_id id s).1
  unfolding tag_count tag_count_for_instance_id
  register_instance_id_lem id tag s v e =
      let (e', shape) = register_split id tag s e in
      let m = s.instance_tags in
      let lo = s.tagged.tag + 1 in
      let hi = s.tagged.tag + s.tagged.uid in
      let (small, value) = next_tag-value s.tagged tag v.block e' in
      let counter = next_tag-counter s.tagged tag v.block e' in
      let new = uses_above lo hi tag m v.issued (omega arith) in
      rw (shape, counter)
        (
          record {
            block = ground arith;
            counted = omega arith;
            issued =
                Within-emplace lo hi (s.tagged.tag + (s.tagged.uid + 1)) id tag m v.issued
                  (omega arith) (ground arith) (ground arith);
            unique = λ x.
                ground (arith, uses-emplace x id tag m, v.unique x, uses_above lo hi x m v.issued);
          },
          new,
          ground (arith, uses-emplace tag id tag m),
          ground (arith, is_issued_tag-next_tag s.tagged tag v.block e', counter),
          length-emplace id tag m,
          ground (arith, length-of_instance-emplace id id tag m),
          refl,
        )

  pub fresh-Inv :
      (tag : ℕ) (d : S)
      → IsBlock (fresh tag)
      → Inv (record { tagged = fresh tag; instance_tags = []; derived = d })
  unfolding fresh
  fresh-Inv tag d b = record {
    block = b;
    counted = omega arith;
    issued = tt;
    unique = λ v. omega arith;
  }

  module _ (do_drop_tag : ℕ → S → S) where
    -- Dropping an instance leaves it without tags, takes from the total just those that it had and
    -- none from any other instance, and keeps the invariant.
    pub tag_count-drop_instance :
        (id : ℕ) (s : Issuer S)
        → let t = drop_instance do_drop_tag id s in
          (tag_count_for_instance_id id t ≡ 0)
          × (tag_count s ≡ tag_count_for_instance_id id s + tag_count t)
          × ((other : ℕ)
              → id ≢ other
              → tag_count_for_instance_id other t ≡ tag_count_for_instance_id other s)
          × (Inv s → Inv t)
    unfolding drop_instance tag_count tag_count_for_instance_id
    tag_count-drop_instance id s =
        let m = s.instance_tags in
        (
          (counts_split id m).1,
          (counts_split id m).0,
          λ other ne. counts_other id other m ne,
          λ v. record {
            block = v.block;
            counted = v.counted;
            issued = Within-of_others _ _ id m v.issued;
            unique = λ x. omega (arith, uses-of_others x id m, v.unique x);
          },
        )

    drop_tag_some :
        (tag : ℕ) (s : Issuer S) (r : Option (List Entry))
        → remove_tag tag s.instance_tags ≡ r
        → Removed tag s.instance_tags r
        → Inv s
        → let (found, t) = drop_tag do_drop_tag tag s in
          Inv t
          × (uses tag t.instance_tags ≡ 0)
          × (found ≡ true
              → (tag_count s ≡ suc (tag_count t)) × (t.derived ≡ do_drop_tag tag s.derived))
          × (found ≡ false → (t ≡ s) × (uses tag s.instance_tags ≡ 0))
    unfolding drop_tag tag_count
    drop_tag_some tag s none e h v = rw (e, drop_tag) (v, h, λ c. cc, λ c. (refl, h))
    drop_tag_some tag s (some m) e h v =
        rw (e, drop_tag)
          (
            record {
              block = v.block;
              counted = v.counted;
              issued = h.2 _ _ v.issued;
              unique = λ x. ground (arith, h.1 x, v.unique x);
            },
            ground (arith, h.1 tag, v.unique tag),
            λ c. (h.0, refl),
            λ c. cc,
          )

    -- If the invariant holds, it still does after `drop_tag`, which removes the one entry that has
    -- the tag and tells the derived class, or, if there is none, reports so and changes nothing.
    -- Afterwards no entry has the tag.
    pub uses-drop_tag :
        (tag : ℕ) (s : Issuer S)
        → Inv s
        → let (found, t) = drop_tag do_drop_tag tag s in
          Inv t
          × (uses tag t.instance_tags ≡ 0)
          × (found ≡ true
              → (tag_count s ≡ suc (tag_count t)) × (t.derived ≡ do_drop_tag tag s.derived))
          × (found ≡ false → (t ≡ s) × (uses tag s.instance_tags ≡ 0))
    uses-drop_tag tag s v =
        drop_tag_some tag s (remove_tag tag s.instance_tags) refl
          (remove_tag-Removed tag s.instance_tags) v
