-- ===== src/Codable/Decoding.antt =====
-- cpp/mrc/src/internal/codable/decodable_storage_view.cpp and storage_view.cpp of the same directory: the
-- bytes that a descriptor gives back, from the message itself or from the memory of another instance, with
-- RemoteRegistrationCache of cpp/mrc/src/internal/ucx/remote_registration_cache.hpp. The remote key of a
-- block goes with the block; what a get of the data plane reads is a parameter.
pub mod Eager
pub mod Remote
use mrc.Prelude.{
  ℕ, zero, suc, ◌+◌, ◌-◌, Bool, true, false, not, ◌&&◌, ◌||◌, Option, none, some, List, [], ◌∷◌,
  length, ltb, leb, ◌==◌, if◌then◌else◌,
}
use mrc.Memory.Blocks.{MemoryBlock, Blocks, add_block, drop_block, find_block, contains}
use mrc.Codable.{
  MemoryKind, none_kind, host, pinned, device, managed, View, RemoteDesc, Descriptor, remote_desc,
  eager_desc, meta_data_desc, Object, Storage, nth,
}

-- The memory of the process, and the cache of the endpoint to each instance.
pub record Machine : Type 0 where
  pub memory : ℕ → ℕ
  pub registration_caches : ℕ → Blocks

-- The bytes that a get from the instance at the address reads with the key of the block.
pub record DataPlane : Type 0 where
  pub instance_id : ℕ
  pub get : ℕ → MemoryBlock → ℕ → ℕ → List ℕ

-- The byte of the list at the index, or 0 after its end.
abbrev pub byte_at : ℕ → List ℕ → ℕ
byte_at i [] = 0
byte_at zero (b ∷ bs) = b
byte_at (suc i) (b ∷ bs) = byte_at i bs

-- `std::memcpy` of the first n bytes.
unfoldable pub write_bytes : ℕ → ℕ → List ℕ → (ℕ → ℕ) → ℕ → ℕ
write_bytes dst n bytes memory a =
    if leb dst a && ltb a (dst + n) then byte_at (a - dst) bytes else memory a

abbrev pub set_cache : ℕ → Blocks → (ℕ → Blocks) → ℕ → Blocks
set_cache id m caches i = if id == i then m else caches i

abbrev pub is_device : MemoryKind → Bool
is_device device = true
is_device _ = false

module _ {M : Type 0} where
  unfoldable pub object_count : Storage M → ℕ
  object_count s = length s.objects

  unfoldable pub descriptor_count : Storage M → ℕ
  descriptor_count s = length s.descriptors

  -- `none` is a failed check, in these and those below.
  unfoldable pub type_index_hash_for_object : ℕ → Storage M → Option ℕ
  unfolding nth
  type_index_hash_for_object idx s = elim (nth idx s.objects) [
    | none ↦ none
    | some o ↦ some o.type_index_hash
  ]

  unfoldable pub start_idx_for_object : ℕ → Storage M → Option ℕ
  unfolding nth
  start_idx_for_object idx s = elim (nth idx s.objects) [
    | none ↦ none
    | some o ↦ some o.starting_descriptor_idx
  ]

  unfoldable pub parent_obj_idx_for_object : ℕ → Storage M → Option (Option ℕ)
  unfolding nth
  parent_obj_idx_for_object idx s = elim (nth idx s.objects) [
    | none ↦ none
    | some o ↦ some o.parent_object_idx
  ]

  unfoldable pub buffer_size : ℕ → Storage M → Option ℕ
  unfolding nth
  buffer_size idx s = elim (nth idx s.descriptors) [
    | none ↦ none
    | some d ↦ elim d [
      | remote_desc r ↦ some r.bytes
      | eager_desc bytes ↦ some (length bytes)
      | meta_data_desc m ↦ none
    ]
  ]

unfoldable pub copy_from_eager_buffer : List ℕ → View → Machine → Option Machine
unfolding write_bytes
copy_from_eager_buffer bytes dst_view s =
    if leb dst_view.bytes (length bytes) && not (is_device dst_view.kind)
    then some (record s { memory = write_bytes dst_view.data_at dst_view.bytes bytes s.memory })
    else none

-- `drop_block` of the cache; `none` is a failed check.
unfoldable pub drop_registration : ℕ → Blocks → Option Blocks
unfolding find_block drop_block
drop_registration addr m = elim (find_block addr m) [
  | none ↦ none
  | some b ↦ some (drop_block addr m)
]

module _ (d : DataPlane) where
  -- The get, with the caches that it leaves.
  unfoldable pub get_with : MemoryBlock → Blocks → RemoteDesc → View → Machine → Machine
  unfolding write_bytes
  get_with block cache remote dst_view s = record s {
    memory =
        write_bytes dst_view.data_at dst_view.bytes
          (d.get remote.instance_id block remote.address dst_view.bytes) s.memory;
    registration_caches = set_cache remote.instance_id cache s.registration_caches;
  }

  unfoldable pub copy_from_registered_buffer : RemoteDesc → View → Machine → Option Machine
  unfolding find_block add_block drop_registration get_with
  copy_from_registered_buffer remote dst_view s =
      let cache = s.registration_caches remote.instance_id in
      let block : MemoryBlock = record {
        start = remote.memory_block_address;
        bytes = remote.memory_block_size;
      } in
      let added = add_block block cache in
      if not (leb dst_view.bytes remote.bytes) || (d.instance_id == remote.instance_id)
      then none
      else elim (find_block remote.address cache) [
        | some cached ↦ some (get_with cached cache remote dst_view s)
        | none ↦
            if remote.should_cache
            then some (get_with block added remote dst_view s)
            else elim (drop_registration remote.memory_block_address added) [
              | none ↦ none
              | some dropped ↦ some (get_with block dropped remote dst_view s)
            ]
      ]

  unfoldable pub copy_from_buffer : {M : Type 0} → ℕ → View → Storage M → Machine → Option Machine
  unfolding copy_from_eager_buffer copy_from_registered_buffer nth
  copy_from_buffer idx dst_view storage s = elim (nth idx storage.descriptors) [
    | none ↦ none
    | some desc ↦ elim desc [
      | eager_desc bytes ↦ copy_from_eager_buffer bytes dst_view s
      | remote_desc remote ↦ copy_from_registered_buffer remote dst_view s
      | meta_data_desc m ↦ none
    ]
  ]
