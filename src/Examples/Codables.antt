-- ===== src/Examples/Codables.antt =====
-- The storage of an encoded object, on small data.
use mrc.Prelude.{
  ℕ, if◌then◌else◌, ◌||◌, not, ◌≡◌, ◌≢◌, refl, true, false, none, some, [], ◌∷◌, length, inr, arith,
}
use mrc.Prelude.Maps.{lookup, is_some}
use mrc.Memory.Blocks.{find_block, contains}
use mrc.Memory.Blocks.Lookup.{IsDisjoint, Clear}
use mrc.Codable.{
  copy_to_eager_descriptor, proto_host, none_kind, host, View, RemoteDesc, Storage, remote_desc,
  register_memory_view, registered, nth, decode_descriptor, push_context, pop_context,
  copy_to_buffer,
}
use mrc.Codable.Views.{block_of, register_memory_view_lem}
use mrc.Codable.Contexts.{next_index, push_context_lem}
use mrc.Codable.Copies.{Copied, copy_to_buffer_lem}
use mrc.Codable.Decoding.{Machine, DataPlane, copy_from_registered_buffer}
use mrc.Codable.Decoding.Eager.{given_back, holding, copy_from_buffer-copy_to_eager}
use mrc.Codable.Decoding.Remote.{block_of_remote, cached_in, copy_from_registered_buffer_lem}

abbrev view : View
view = record { data_at = 4096; bytes = 65536; kind = host }

abbrev small_view : View
small_view = record { data_at = 8; bytes = 4; kind = host }

abbrev buffer : View
buffer = record { data_at = 64; bytes = 8; kind = host }

-- One block is registered; the messages are numbers.
abbrev storage : Storage ℕ
storage = record {
  objects = [];
  descriptors = [];
  registration_cache = (2048, record { start = 1024; bytes = 1024 }) ∷ [];
  buffers = (0, buffer) ∷ [];
  temporary_registrations = [];
  parent = none;
  is_acquired = false;
}

abbrev memory : ℕ → ℕ
memory a = a

is_host : view.kind ≢ none_kind
is_host e = cc

disjoint : IsDisjoint storage.registration_cache
disjoint = (omega arith, omega arith, omega arith, refl, tt)

view-Clear : Clear (block_of view) storage.registration_cache
view-Clear = (inr (omega arith), tt)

register_memory_view_lem_example :
    (d : RemoteDesc) × (s' : Storage ℕ) × (register_memory_view 3 view false storage
      ≡ (registered (length storage.descriptors), s'))
    × (nth (length storage.descriptors) s'.descriptors ≡ some (remote_desc d))
    × (decode_descriptor d ≡ some view)
    × (d.should_cache ≡ is_some (find_block view.data_at storage.registration_cache))
register_memory_view_lem_example =
    register_memory_view_lem 3 view false storage is_host disjoint (omega arith) (omega arith)
      (inr (view-Clear, inr (omega arith)))

push_context_lem_example :
    let (before, s1) = push_context 11 storage in
    let (within, s2) = push_context 12 s1 in
    (nth (next_index storage) s2.objects
      ≡ some (record {
        type_index_hash = 11;
        starting_descriptor_idx = length storage.descriptors;
        parent_object_idx = storage.parent;
      }))
    × (nth (next_index s1) s2.objects
        ≡ some (record {
          type_index_hash = 12;
          starting_descriptor_idx = length storage.descriptors;
          parent_object_idx = some (next_index s1);
        }))
    × ((pop_context within s2).parent ≡ s1.parent)
    × ((pop_context within s2).is_acquired ≡ true)
    × ((pop_context before s1).parent ≡ storage.parent)
    × ((pop_context before s1).is_acquired ≡ is_some storage.parent)
push_context_lem_example = push_context_lem 11 12 storage

copy_to_buffer_lem_example :
    (copy_to_buffer 0 small_view storage memory ≡ none)
    × (m : ℕ → ℕ) × (copy_to_buffer 0 view storage memory ≡ some m)
    × Copied view buffer memory m 8 63
copy_to_buffer_lem_example =
    copy_to_buffer_lem 0 small_view view buffer storage memory 8 63 (unfold lookup in refl)
      (omega arith) (omega arith)

-- A data plane that reads zeros, and the instance's cache with a block.
abbrev plane : DataPlane
plane = record { instance_id = 1; get = λ i b a n. 0 ∷ [] }

abbrev machine : Machine
machine = record { memory = memory; registration_caches = λ i. storage.registration_cache }

abbrev remote : RemoteDesc
remote = record {
  instance_id = 2;
  address = 4100;
  bytes = 16;
  memory_block_address = 4096;
  memory_block_size = 65536;
  memory_kind = proto_host;
  should_cache = false;
}

abbrev acquired : Storage ℕ
acquired = record storage { is_acquired = true }

copy_from_registered_buffer_lem_example :
    cached_in 2 5000 (copy_from_registered_buffer plane remote small_view machine)
    ≡ some (
        if is_some (find_block 4100 storage.registration_cache)
          || not (contains (block_of_remote remote) 5000)
        then find_block 5000 storage.registration_cache
        else if false
        then some (block_of_remote remote)
        else none)
copy_from_registered_buffer_lem_example =
    copy_from_registered_buffer_lem plane 5000 remote small_view machine
      (inr (disjoint, (inr (omega arith), tt), omega arith, omega arith)) (omega arith)
      (ground arith)

copy_from_buffer-copy_to_eager_example :
    given_back plane small_view machine (copy_to_eager_descriptor (3 ∷ 1 ∷ 4 ∷ 1 ∷ []) acquired)
    ≡ some (
      some 4,
      some (record machine { memory = holding small_view.data_at (3 ∷ 1 ∷ 4 ∷ 1 ∷ []) memory }),
    )
copy_from_buffer-copy_to_eager_example =
    copy_from_buffer-copy_to_eager plane (3 ∷ 1 ∷ 4 ∷ 1 ∷ []) small_view acquired machine refl refl
