-- ===== src/Codable/Copies.antt =====
-- cpp/mrc/src/internal/codable/codable_storage.cpp: copies into a buffer.
use mrc.Prelude.{ℕ, ◌+◌, ◌-◌, ◌<◌, ◌≡◌, none, some, arith, if◌then◌else◌, ltb}
use mrc.Prelude.Maps.{lookup}
use mrc.Codable.{View, Storage, copy_bytes, copy_to_buffer}

-- The memory with the bytes of one view, from offset 0 on, at the address of another.
abbrev pub Copied : View → View → (ℕ → ℕ) → (ℕ → ℕ) → ℕ → ℕ → Type 0
Copied src dst memory m k a =
    (m (dst.data_at + k)
      ≡ (if ltb k src.bytes then memory (src.data_at + k) else memory (dst.data_at + k)))
    × ((if ltb a dst.data_at then m a else memory a) ≡ memory a)

-- The check of `copy_to_buffer` is the wrong way round: a view that is smaller than the buffer is
-- refused, and one that is larger is copied whole. At each offset k below its size the memory at the buffer
-- has the byte of the view, those past the end of the buffer included; from its size on and at each
-- address a below the buffer the memory is as it was.
pub copy_to_buffer_lem :
    {M : Type 0} (buffer_idx : ℕ) (small large dst : View) (s : Storage M) (memory : ℕ → ℕ)
    (k a : ℕ)
    → lookup buffer_idx s.buffers ≡ some dst
    → small.bytes < dst.bytes
    → dst.bytes < large.bytes
    → (copy_to_buffer buffer_idx small s memory ≡ none)
      × (m : ℕ → ℕ) × (copy_to_buffer buffer_idx large s memory ≡ some m)
      × Copied large dst memory m k a
unfolding copy_to_buffer copy_bytes
copy_to_buffer_lem buffer_idx small large dst s memory k a e l m =
    let back : dst.data_at + k - dst.data_at ≡ k = omega arith in
    (
      ground (arith, e, l),
      copy_bytes dst.data_at large.data_at large.bytes memory,
      ground (arith, e, m),
      (rw back (ground arith), ground arith),
    )
