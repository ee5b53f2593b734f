-- ===== src/Codable/Decoding/Remote.antt =====
-- cpp/mrc/src/internal/codable/decodable_storage_view.cpp: what a get leaves in the cache of its endpoint.
use mrc.Prelude.{
  ◌⊎◌, ℕ, ◌≤◌, ◌<◌, ◌≡◌, ◌≢◌, refl, ap, true, false, not, ◌||◌, Option, none, some, leb, ◌==◌,
  if◌then◌else◌, arith, Bool-cases, Option-cases, inl, inr,
}
use mrc.Prelude.Maps.{is_some}
use mrc.Memory.Blocks.{MemoryBlock, Blocks, add_block, drop_block, find_block, contains}
use mrc.Memory.Blocks.Lookup.{IsDisjoint, Clear, add_block_lem, drop_block_lem}
use mrc.Codable.{View, RemoteDesc}
use mrc.Codable.Decoding.{
  Machine, DataPlane, drop_registration, get_with, copy_from_registered_buffer,
}

-- The block that the descriptor names.
abbrev pub block_of_remote : RemoteDesc → MemoryBlock
block_of_remote r = record { start = r.memory_block_address; bytes = r.memory_block_size }

-- The block that a cache finds for an address of the instance.
abbrev pub cached_in : ℕ → ℕ → Option Machine → Option (Option MemoryBlock)
cached_in id p none = none
cached_in id p (some s) = some (find_block p (s.registration_caches id))

start-contains :
    (r : RemoteDesc)
    → 0 < r.memory_block_address
    → 0 < r.memory_block_size
    → contains (block_of_remote r) r.memory_block_address ≡ true
unfolding contains
start-contains r a b = ground (arith, a, b)

-- The block of the descriptor can be added to the disjoint blocks of a cache.
abbrev pub Addable : RemoteDesc → Blocks → Type 0
Addable r m =
    IsDisjoint m
    × Clear (block_of_remote r) m
    × (0 < r.memory_block_address)
    × (0 < r.memory_block_size)

module _ (d : DataPlane) where
  -- A get of no more bytes than the descriptor has, from another instance, succeeds if the cache of that
  -- instance has a block with the address; the cache then stays as it is. It also succeeds if the cached blocks are
  -- disjoint and the block of the descriptor, which is not empty and not at the null address, overlaps none
  -- of them. If the address is in no cached block, the cache then finds the descriptor's block afterwards when
  -- the descriptor says so, and nothing in that block when not; all other addresses are as before.
  pub copy_from_registered_buffer_lem :
      (p : ℕ) (r : RemoteDesc) (dst : View) (s : Machine)
      → (is_some (find_block r.address (s.registration_caches r.instance_id)) ≡ true)
        ⊎ Addable r (s.registration_caches r.instance_id)
      → dst.bytes ≤ r.bytes
      → d.instance_id ≢ r.instance_id
      → cached_in r.instance_id p (copy_from_registered_buffer d r dst s)
        ≡ some (
            if is_some (find_block r.address (s.registration_caches r.instance_id))
              || not (contains (block_of_remote r) p)
            then find_block p (s.registration_caches r.instance_id)
            else if r.should_cache
            then some (block_of_remote r)
            else none)
  unfolding copy_from_registered_buffer drop_registration get_with
  copy_from_registered_buffer_lem p r dst s h l n =
      let cache = s.registration_caches r.instance_id in
      let block = block_of_remote r in
      let passes : (not (leb dst.bytes r.bytes) || (d.instance_id == r.instance_id)) ≡ false =
        ground (arith, l, n) in
      let here : (r.instance_id == r.instance_id) ≡ true = ground arith in
      elim (Option-cases (find_block r.address cache)) [
        | inr (k, e) ↦ rw (copy_from_registered_buffer, passes, e, here) refl
        | inl k ↦ elim h [
          | inl hit ↦ ground (arith, hit, k)
          | inr (v, c, a, b) ↦
              let (added_disjoint, added) = add_block_lem block cache v a b c in
              elim (Bool-cases r.should_cache) [
                | inl y ↦
                    rw (copy_from_registered_buffer, passes, k, y, here) (ground (arith, added p))
                | inr z ↦
                    let q = r.memory_block_address in
                    let found : find_block q (add_block block cache) ≡ some block =
                      ground (arith, added q, start-contains r a b) in
                    let that = (drop_block_lem q (add_block block cache) added_disjoint).1 p in
                    let dropped : find_block p (drop_block q (add_block block cache))
                        ≡ (if not (contains block p) then find_block p cache else none) =
                      ground (arith, that, found, added p) in
                    rw (copy_from_registered_buffer, passes, k, z, drop_registration, found, here)
                      (ap some dropped)
              ]
        ]
      ]
