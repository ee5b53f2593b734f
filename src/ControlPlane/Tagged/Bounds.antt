-- ===== src/ControlPlane/Tagged/Bounds.antt =====
-- Which object a tag belongs to.
use Prim.Native.Nat.{bit_and}
use mrc.Prelude.{ℕ, ◌+◌, ◌*◌, ◌/◌, ◌%◌, ◌^◌, ◌≤◌, ◌<◌, ◌≡◌, ◌↔◌, true, false, some, arith}
use mrc.Prelude.Bits.{bit_and_field}
use mrc.ControlPlane.Tagged.{
  Tagged, uint16_max, mask, next, fresh, upper_bound, lower_bound, is_valid_tag, is_issued_tag,
  next_tag,
}

-- What `Tagged::next` gives out: a multiple of 2^16 that FitsAt 44 bits and is not 0.
pub record IsBlock (t : Tagged) : Type 0 where
  pub whole : t.tag % 2 ^ 16 ≡ 0
  pub positive : 0 < t.tag
  pub bounded : t.tag < 2 ^ 44
  pub counter : t.uid < 2 ^ 16

-- Every block that the process hands out is well formed, and the counter moves to it, as long as
-- the 32-bit counter has not wrapped.
pub next-IsBlock :
    (c tag : ℕ)
    → c + 1 < 2 ^ 32
    → (next c).0 ≡ some tag
    → IsBlock (fresh tag) × ((next c).1 * 2 ^ 16 ≡ tag) × (c < (next c).1)
unfolding next fresh
next-IsBlock c tag l e = ground arith

masked : (tag : ℕ) → bit_and tag mask ≡ tag / 2 ^ 16 % 2 ^ 32 * 2 ^ 16
masked tag = bit_and_field 16 32 tag

pub next_tag-value :
    (t : Tagged) (tag : ℕ)
    → IsBlock t
    → (next_tag t).0 ≡ some tag
    → (t.uid < uint16_max) × (tag ≡ t.tag + t.uid + 1)
unfolding next_tag
next_tag-value t tag b e = ground arith

pub next_tag-counter :
    (t : Tagged) (tag : ℕ)
    → IsBlock t
    → (next_tag t).0 ≡ some tag
    → (next_tag t).1 ≡ record t { uid = t.uid + 1 }
unfolding next_tag
next_tag-counter t tag b e = ground arith

-- For blocks such as `Tagged::next` gives: a tag that one object issues is valid for an object
-- exactly when the two have the same block.
pub is_valid_tag-next_tag :
    (t u : Tagged) (tag : ℕ)
    → IsBlock t
    → IsBlock u
    → (next_tag t).0 ≡ some tag
    → (is_valid_tag u tag ≡ true) ↔ (u.tag ≡ t.tag)
unfolding is_valid_tag
is_valid_tag-next_tag t u tag b c e =
    let (small, sum) = next_tag-value t tag b e in ground (arith, masked tag)

-- For a block such as `Tagged::next` gives: a tag that its object issues lies strictly above the
-- lower bound and at or below the upper one, is accepted by `is_issued_tag` afterwards, and was not
-- accepted before.
pub is_issued_tag-next_tag :
    (t : Tagged) (tag : ℕ)
    → IsBlock t
    → (next_tag t).0 ≡ some tag
    → (lower_bound t < tag)
      × (tag ≤ upper_bound t)
      × (is_issued_tag (next_tag t).1 tag ≡ true)
      × (is_issued_tag t tag ≡ false)
unfolding lower_bound upper_bound is_issued_tag next_tag
is_issued_tag-next_tag t tag b e = ground arith
