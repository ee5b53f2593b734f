-- ===== src/Addresses.antt =====
-- cpp/mrc/src/public/core/addresses.cpp and the address types of cpp/mrc/include/mrc/types.hpp:
-- segment and port addresses packed into words, and the name hash. An address part is a number
-- below its type's modulus; a name is the list of its characters, without the final zero.
pub mod RoundTrip
use Prim.Native.Nat.{bit_and, bit_or, bit_xor}
use mrc.Prelude.{ℕ, ◌+◌, ◌-◌, ◌*◌, ◌/◌, ◌%◌, ◌^◌, ◌==◌, if◌then◌else◌, List, [], ◌∷◌}

-- SegmentID, SegmentRank and PortID are `uint16_t`.
abbrev pub u16 : ℕ
u16 = 2 ^ 16

-- SegmentAddress is `uint32_t`.
abbrev pub u32 : ℕ
u32 = 2 ^ 32

-- PortAddress is `uint64_t`.
abbrev pub u64 : ℕ
u64 = 2 ^ 64

pub segment_address_encode : ℕ → ℕ → ℕ
segment_address_encode seg_id seg_rank = bit_or (seg_id * 2 ^ 16 % u32) seg_rank

unfoldable pub segment_address_decode : ℕ → ℕ × ℕ
segment_address_decode address =
    (bit_and (address / 2 ^ 16) (2 ^ 16 - 1) % u16, bit_and address (2 ^ 16 - 1) % u16)

-- The overload on a segment address and a port.
pub port_address_of : ℕ → ℕ → ℕ
port_address_of seg_addr port = bit_or (seg_addr * 2 ^ 16 % u64) port

pub port_address_encode : ℕ → ℕ → ℕ → ℕ
port_address_encode seg_id seg_rank port =
    port_address_of (segment_address_encode seg_id seg_rank) port

-- The `DCHECK_EQ` on the upper 16 bits, which a release build leaves out, is not part of the result.
pub port_address_decode : ℕ → ℕ × ℕ × ℕ
port_address_decode address = (
  bit_and (address / 2 ^ 32) (2 ^ 16 - 1) % u16,
  bit_and (address / 2 ^ 16) (2 ^ 16 - 1) % u16,
  bit_and address (2 ^ 16 - 1) % u16,
)

-- `uint32_t(c)` of a signed `char`: a byte above 127 is extended by ones.
pub widen_char : ℕ → ℕ
widen_char c = if c / 128 == 0 then c else c + (u32 - 256)

-- `fnv1a::hash`, from the running value on.
pub fnv1a : List ℕ → ℕ → ℕ
unfolding widen_char
fnv1a [] val = val
fnv1a (c ∷ cs) val = fnv1a cs (bit_xor val (widen_char c) * 0x0100_0193 % u32)

pub hash_16 : List ℕ → ℕ
unfolding fnv1a
hash_16 name = bit_and (fnv1a name 0x811c_9dc5) (2 ^ 16 - 1) % u16

pub segment_name_hash : List ℕ → ℕ
unfolding hash_16
segment_name_hash name = hash_16 name

pub port_name_hash : List ℕ → ℕ
unfolding hash_16
port_name_hash name = hash_16 name
