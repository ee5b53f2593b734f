-- ===== src/Examples/Tags.antt =====
-- The tag blocks and the issuer on small data.
use mrc.Prelude.{◌+◌, ◌≡◌, refl, [], none, some, suc, ℕ, arith}
use mrc.ControlPlane.Tagged.{Tagged, fresh, next_tag, after_calls}
use mrc.ControlPlane.Tagged.Bounds.{IsBlock}
use mrc.ControlPlane.Tagged.Exhaustion.{next_tag_reissues}
use mrc.ControlPlane.Issuer.{Issuer, register_instance_id}
use mrc.ControlPlane.Issuer.Registry.{Inv, fresh-Inv, register_instance_id_lem}

-- The first block that `Tagged::next` gives.
abbrev block : Tagged
block = record { tag = 65536; uid = 1 }

block-IsBlock : IsBlock block
block-IsBlock = record {
  whole = omega arith;
  positive = omega arith;
  bounded = omega arith;
  counter = omega arith;
}

abbrev three : ℕ
three = 3

next_tag_reissues_example :
    let full = after_calls 65534 (fresh (block.tag)) in
    ((next_tag full).0 ≡ none)
    × ((next_tag (next_tag full).1).0 ≡ some ((block.tag) + 1))
    × ((next_tag (next_tag (next_tag full).1).1).0 ≡ (next_tag (fresh (block.tag))).0)
next_tag_reissues_example = next_tag_reissues block.tag (omega arith)

-- An issuer that counts the drops.
abbrev none_yet : Issuer ℕ
none_yet = record { tagged = fresh block.tag; instance_tags = []; derived = 0 }

fresh-IsBlock : IsBlock (fresh block.tag)
fresh-IsBlock = unfold fresh in block-IsBlock

none_yet-Inv : Inv none_yet
none_yet-Inv = fresh-Inv block.tag 0 fresh-IsBlock

-- Instance 9 has a tag.
abbrev one : Issuer ℕ
one = (register_instance_id 9 none_yet).1

abbrev first_tag : ℕ
first_tag = 65538

one-Inv : Inv one
one-Inv =
    (register_instance_id_lem 9 first_tag none_yet none_yet-Inv
      (unfold register_instance_id next_tag fresh in refl)).0

abbrev count_drop : ℕ → ℕ → ℕ
count_drop tag n = suc n

abbrev nine : ℕ
nine = 9
