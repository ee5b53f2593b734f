-- ===== src/Addresses/RoundTrip.antt =====
-- Packing and unpacking of addresses are inverse to one another.
use Prim.Native.Nat.{bit_and}
use mrc.Prelude.{ℕ, ◌+◌, ◌-◌, ◌*◌, ◌/◌, ◌%◌, ◌^◌, ◌<◌, ◌≡◌, arith}
use mrc.Prelude.Bits.{bit_or-add, bit_and-mod}
use mrc.Addresses.{
  u16, u32, u64, segment_address_encode, segment_address_decode, port_address_of,
  port_address_encode, port_address_decode,
}

-- A field that is masked to 16 bits and stored in a `uint16_t`.
low_field : (a : ℕ) → bit_and a (2 ^ 16 - 1) % u16 ≡ a % 2 ^ 16
low_field a = omega (arith, bit_and-mod 16 a)

segment_sum : (i r : ℕ) → i < u16 → r < u16 → segment_address_encode i r ≡ i * 2 ^ 16 + r
unfolding segment_address_encode
segment_sum i r hi hr =
    let FitsAt : i * 2 ^ 16 % u32 ≡ i * 2 ^ 16 = omega arith in rw FitsAt (bit_or-add 16 i r hr)

port_sum : (s p : ℕ) → s < u32 → p < u16 → port_address_of s p ≡ s * 2 ^ 16 + p
unfolding port_address_of
port_sum s p hs hp =
    let FitsAt : s * 2 ^ 16 % u64 ≡ s * 2 ^ 16 = omega arith in rw FitsAt (bit_or-add 16 s p hp)

segment_fields : (a : ℕ) → segment_address_decode a ≡ (a / 2 ^ 16 % 2 ^ 16, a % 2 ^ 16)
unfolding segment_address_decode
segment_fields a = ground (arith, low_field (a / 2 ^ 16), low_field a)

port_fields :
    (a : ℕ) → port_address_decode a ≡ (a / 2 ^ 32 % 2 ^ 16, a / 2 ^ 16 % 2 ^ 16, a % 2 ^ 16)
unfolding port_address_decode
port_fields a = ground (arith, low_field (a / 2 ^ 32), low_field (a / 2 ^ 16), low_field a)

-- A segment address gives back the 16-bit id and rank that were packed into it.
pub segment_address_decode-encode :
    (id rank : ℕ)
    → id < u16
    → rank < u16
    → segment_address_decode (segment_address_encode id rank) ≡ (id, rank)
segment_address_decode-encode id rank h k =
    ground (arith, segment_fields (segment_address_encode id rank), segment_sum id rank)

-- Every 32-bit segment address is the packing of its two parts, and both parts fit 16 bits.
pub segment_address_encode-decode :
    (a : ℕ)
    → a < u32
    → let (id, rank) = segment_address_decode a in
      (segment_address_encode id rank ≡ a) × (id < u16) × (rank < u16)
segment_address_encode-decode a h =
    rw segment_fields
      (omega (arith, segment_sum (a / 2 ^ 16 % 2 ^ 16) (a % 2 ^ 16)), omega arith, omega arith)

-- A port address gives back the id, the rank and the port, each below 2^16, that were packed into
-- it.
pub port_address_decode-encode :
    (id rank port : ℕ)
    → id < u16
    → rank < u16
    → port < u16
    → port_address_decode (port_address_encode id rank port) ≡ (id, rank, port)
unfolding port_address_encode
port_address_decode-encode id rank port h k l = ground (
  arith,
  port_fields (port_address_of (segment_address_encode id rank) port),
  segment_sum id rank,
  port_sum (segment_address_encode id rank) port,
)

-- Every port address whose upper 16 bits are clear is the packing of its three parts.
pub port_address_encode-decode :
    (a : ℕ)
    → a < 2 ^ 48
    → let (id, rank, port) = port_address_decode a in port_address_encode id rank port ≡ a
unfolding port_address_encode
port_address_encode-decode a h = rw port_fields (
    omega (
      arith,
      segment_sum (a / 2 ^ 32 % 2 ^ 16) (a / 2 ^ 16 % 2 ^ 16),
      port_sum (segment_address_encode (a / 2 ^ 32 % 2 ^ 16) (a / 2 ^ 16 % 2 ^ 16)) (a % 2 ^ 16),
    ))

-- Packed addresses of the same parts and only those are equal: segments never share an address.
pub segment_address_encode-injective :
    (id rank id' rank' : ℕ)
    → id < u16
    → rank < u16
    → id' < u16
    → rank' < u16
    → segment_address_encode id rank ≡ segment_address_encode id' rank'
    → (id ≡ id') × (rank ≡ rank')
segment_address_encode-injective id rank id' rank' h k h' k' e =
    omega (arith, segment_sum id rank h k, segment_sum id' rank' h' k')
