-- ===== src/Codable/Decoding/Eager.antt =====
-- cpp/mrc/src/internal/codable/decodable_storage_view.cpp: bytes that come with the message.
use mrc.Prelude.{
  ℕ, ◌+◌, ◌-◌, ◌≡◌, refl, true, false, ◌&&◌, Option, none, some, List, length, leb, ltb,
  if◌then◌else◌, arith, Bool-cases, inl, inr,
}
use mrc.Codable.{View, Storage, eager_desc, copy_to_eager_descriptor}
use mrc.Codable.Views.{nth-last}
use mrc.Codable.Decoding.{
  Machine, DataPlane, is_device, write_bytes, byte_at, buffer_size, copy_from_eager_buffer,
  copy_from_buffer,
}

-- What the storage gives back of the bytes that an eager descriptor was made of: their number, and the
-- memory after they have been copied.
abbrev pub given_back :
    {M : Type 0}
    → DataPlane
    → View
    → Machine
    → Option (ℕ × Storage M)
    → Option (Option ℕ × Option Machine)
given_back d dst m none = none
given_back d dst m (some (idx, s)) = some (buffer_size idx s, copy_from_buffer d idx dst s m)

-- The memory with the bytes of the list from the address on.
abbrev pub holding : ℕ → List ℕ → (ℕ → ℕ) → ℕ → ℕ
holding at_ bytes memory a =
    if leb at_ a && ltb a (at_ + length bytes) then byte_at (a - at_) bytes else memory a

module _ {M : Type 0} (d : DataPlane) where
  -- In a context, bytes that are copied to an eager descriptor come back: the descriptor has their number
  -- for its size, and copied to a view of that size that is not on a device they are the memory of the
  -- view, while all other memory is as it was. Without a context the check fails.
  pub copy_from_buffer-copy_to_eager :
      (bytes : List ℕ) (dst : View) (s : Storage M) (m : Machine)
      → dst.bytes ≡ length bytes
      → is_device dst.kind ≡ false
      → given_back d dst m (copy_to_eager_descriptor bytes s) ≡ (
          if s.is_acquired
          then some
              (some (length bytes), some (record m { memory = holding dst.data_at bytes m.memory }))
          else none)
  unfolding copy_to_eager_descriptor buffer_size copy_from_buffer copy_from_eager_buffer write_bytes
  copy_from_buffer-copy_to_eager bytes dst s m e n = elim (Bool-cases s.is_acquired) [
    | inl y ↦
        let last = nth-last (eager_desc bytes) s.descriptors in
        let fits : leb (length bytes) (length bytes) ≡ true = ground arith in
        rw
          (
            copy_to_eager_descriptor, y, buffer_size, last, copy_from_buffer,
            copy_from_eager_buffer, e, n, fits,
          )
          refl
    | inr f ↦ rw (copy_to_eager_descriptor, f) refl
  ]
