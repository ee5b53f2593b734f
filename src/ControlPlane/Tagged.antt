-- ===== src/ControlPlane/Tagged.antt =====
-- `Tagged` of cpp/mrc/src/internal/control_plane/server/tagged_issuer.{hpp,cpp}: blocks of 2^16 tags.
-- The static counter of `Tagged::next` is an argument.
pub mod Bounds
pub mod Exhaustion
use Prim.Native.Nat.{bit_and}
use mrc.Prelude.{
  ℕ, zero, suc, ◌+◌, ◌-◌, ◌*◌, ◌%◌, ◌^◌, Bool, ◌&&◌, Option, none, some, ltb, leb, ◌==◌,
  if◌then◌else◌,
}

abbrev pub uint16_max : ℕ
uint16_max = 2 ^ 16 - 1

-- The mask of `is_valid_tag`.
abbrev pub mask : ℕ
mask = 0x0000_ffff_ffff_0000

-- `m_tag` is constant; `m_uid` is a `uint16_t`.
pub record Tagged : Type 0 where
  pub tag : ℕ
  pub uid : ℕ

-- `none` is the overflow_error.
unfoldable pub next : ℕ → Option ℕ × ℕ
next next_tag =
    let n : ℕ = (next_tag + 1) % 2 ^ 32 in
    if ltb n 0x0fff_ffff then (some (n * 2 ^ 16 % 2 ^ 64), n) else (none, n)

-- A new object, with the block that `next` gave.
unfoldable pub fresh : ℕ → Tagged
fresh tag = record { tag = tag; uid = 1 }

pub upper_bound : Tagged → ℕ
upper_bound t = (t.tag + uint16_max) % 2 ^ 64

pub lower_bound : Tagged → ℕ
lower_bound t = t.tag

pub is_valid_tag : Tagged → ℕ → Bool
is_valid_tag t tag = bit_and tag mask == t.tag

unfoldable pub is_issued_tag : Tagged → ℕ → Bool
unfolding lower_bound
is_issued_tag t tag = ltb (lower_bound t) tag && leb tag ((t.tag + t.uid) % 2 ^ 64)

-- `m_uid++` happens before the test is decided, also when it fails.
unfoldable pub next_tag : Tagged → Option ℕ × Tagged
next_tag t =
    let t' : Tagged = record t { uid = (t.uid + 1) % 2 ^ 16 } in
    if ltb t.uid uint16_max then (some ((t.tag + t'.uid) % 2 ^ 64), t') else (none, t')

-- The object after a number of calls of `next_tag`.
pub after_calls : ℕ → Tagged → Tagged
after_calls zero t = t
after_calls (suc n) t = after_calls n (next_tag t).1
