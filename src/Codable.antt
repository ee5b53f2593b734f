-- ===== src/Codable.antt =====
-- `CodableStorage` of cpp/mrc/src/internal/codable/codable_storage.{hpp,cpp}, with the views of
-- storage_view.cpp and the kinds of cpp/mrc/src/public/codable/memory.cpp. The registration cache of the
-- network is that of Memory.Blocks, without the keys of ucx; the memory of the host is a function. The
-- optional parent index and the index -1, which `value_or` makes one, are both `none`.
pub mod Views
pub mod Contexts
pub mod Copies
pub mod Decoding
use mrc.Prelude.{
  ℕ, zero, suc, ◌+◌, ◌-◌, ◌^◌, ◌≡◌, Bool, true, false, not, ◌&&◌, Option, none, some, List, [], ◌∷◌,
  ◌++◌, ltb, leb, if◌then◌else◌, length,
}
use mrc.Prelude.Maps.{Map, lookup, assign}
use mrc.Memory.Blocks.{Blocks, MemoryBlock, find_block, add_block}

pub data MemoryKind : Type 0 where
  none_kind host pinned device managed : MemoryKind

-- The kinds of the messages.
pub data ProtoKind : Type 0 where
  proto_none proto_host proto_pinned proto_device proto_managed : ProtoKind

-- `none` is LOG(FATAL).
unfoldable pub encode_memory_type : MemoryKind → Option ProtoKind
encode_memory_type none_kind = none
encode_memory_type host = some proto_host
encode_memory_type pinned = some proto_pinned
encode_memory_type device = some proto_device
encode_memory_type managed = some proto_managed

unfoldable pub decode_memory_type : ProtoKind → Option MemoryKind
decode_memory_type proto_none = none
decode_memory_type proto_host = some host
decode_memory_type proto_pinned = some pinned
decode_memory_type proto_device = some device
decode_memory_type proto_managed = some managed

pub record View : Type 0 where
  pub data_at : ℕ
  pub bytes : ℕ
  pub kind : MemoryKind

pub record RemoteDesc : Type 0 where
  pub instance_id : ℕ
  pub address : ℕ
  pub bytes : ℕ
  pub memory_block_address : ℕ
  pub memory_block_size : ℕ
  pub memory_kind : ProtoKind
  pub should_cache : Bool

-- An eager descriptor holds the bytes, one of meta data a message, of which the code only packs it.
pub data Descriptor (M : Type 0) : Type 0 where
  remote_desc : RemoteDesc → Descriptor M
  eager_desc : List ℕ → Descriptor M
  meta_data_desc : M → Descriptor M

pub record Object : Type 0 where
  pub type_index_hash : ℕ
  pub starting_descriptor_idx : ℕ
  pub parent_object_idx : Option ℕ

pub record Storage (M : Type 0) : Type 0 where
  pub objects : List Object
  pub descriptors : List (Descriptor M)
  pub registration_cache : Blocks
  pub buffers : Map View
  pub temporary_registrations : List View
  pub parent : Option ℕ
  pub is_acquired : Bool

unfoldable pub encode_descriptor : ℕ → View → MemoryBlock → Bool → Option RemoteDesc
unfolding encode_memory_type
encode_descriptor instance_id view ucx_block should_cache = elim (encode_memory_type view.kind) [
  | none ↦ none
  | some kind ↦ some (record {
    instance_id = instance_id;
    address = view.data_at;
    bytes = view.bytes;
    memory_block_address = ucx_block.start;
    memory_block_size = ucx_block.bytes;
    memory_kind = kind;
    should_cache = should_cache;
  })
]

unfoldable pub decode_descriptor : RemoteDesc → Option View
unfolding decode_memory_type
decode_descriptor desc = elim (decode_memory_type desc.memory_kind) [
  | none ↦ none
  | some kind ↦ some (record { data_at = desc.address; bytes = desc.bytes; kind = kind })
]

unfoldable pub nth : {A : Type 0} → ℕ → List A → Option A
nth i [] = none
nth zero (d ∷ ds) = some d
nth (suc i) (d ∷ ds) = nth i ds

-- The outcome of registering a view: too small, a failed check or a block that is missing although it
-- was added, or the index of the descriptor.
pub data Registered : Type 0 where
  too_small failed : Registered
  registered : ℕ → Registered

module _ {M : Type 0} where
  abbrev pub push_descriptor : Option RemoteDesc → Storage M → Registered × Storage M
  push_descriptor none s = (failed, s)
  push_descriptor (some d) s = (
    registered (length s.descriptors),
    record s { descriptors = s.descriptors ++ (remote_desc d ∷ []) },
  )

  unfoldable pub add_descriptor :
      ℕ → View → Bool → Option MemoryBlock → Storage M → Registered × Storage M
  unfolding encode_descriptor
  add_descriptor instance_id view should_cache none s = (failed, s)
  add_descriptor instance_id view should_cache (some ucx_block) s =
      push_descriptor (encode_descriptor instance_id view ucx_block should_cache) s

  unfoldable pub register_memory : View → Storage M → Storage M
  unfolding add_block
  register_memory view s = record s {
    registration_cache =
        add_block (record { start = view.data_at; bytes = view.bytes }) s.registration_cache;
    temporary_registrations = s.temporary_registrations ++ (view ∷ []);
  }

  unfoldable pub register_memory_view : ℕ → View → Bool → Storage M → Registered × Storage M
  unfolding find_block add_descriptor register_memory
  register_memory_view instance_id view force_register s =
      elim (find_block view.data_at s.registration_cache) [
        | some ucx_block ↦ add_descriptor instance_id view true (some ucx_block) s
        | none ↦
            (if not force_register && ltb view.bytes (2 ^ 16)
              then (too_small, s)
              else (let s' = register_memory view s in
                  add_descriptor instance_id view false
                    (find_block view.data_at s'.registration_cache) s'))
      ]

  -- `none` is a failed check.
  unfoldable pub mutable_host_buffer_view : ℕ → Storage M → Option View
  unfolding nth decode_memory_type
  mutable_host_buffer_view buffer_idx s = elim (nth buffer_idx s.descriptors) [
    | none ↦ none
    | some d ↦ elim d [
      | remote_desc rd ↦ elim rd.memory_kind [
        | proto_none ↦ none
        | proto_host ↦ some (record { data_at = rd.address; bytes = rd.bytes; kind = host })
        | proto_pinned ↦ some (record { data_at = rd.address; bytes = rd.bytes; kind = pinned })
        | proto_device ↦ none
        | proto_managed ↦ none
      ]
      | eager_desc bytes ↦ none
      | meta_data_desc m ↦ none
    ]
  ]

  -- The parent that is restored by `pop_context`, and the storage afterwards.
  unfoldable pub push_context : ℕ → Storage M → Option ℕ × Storage M
  push_context type_index_hash s =
      let objects =
        s.objects
        ++ (record {
          type_index_hash = type_index_hash;
          starting_descriptor_idx = length s.descriptors;
          parent_object_idx = s.parent;
        }
            ∷ []) in
      (s.parent, record s { objects = objects; parent = some (length objects); is_acquired = true })

  unfoldable pub pop_context : Option ℕ → Storage M → Storage M
  pop_context none s = record s { parent = none; is_acquired = false }
  pop_context (some object_idx) s = record s { parent = some object_idx }

  -- `none` is a failed check.
  unfoldable pub copy_to_eager_descriptor : List ℕ → Storage M → Option (ℕ × Storage M)
  copy_to_eager_descriptor bytes s =
      if s.is_acquired
      then some (
        length s.descriptors,
        record s { descriptors = s.descriptors ++ (eager_desc bytes ∷ []) },
      )
      else none

  unfoldable pub add_meta_data : M → Storage M → Option (ℕ × Storage M)
  add_meta_data meta_data s =
      if s.is_acquired
      then some (
        length s.descriptors,
        record s { descriptors = s.descriptors ++ (meta_data_desc meta_data ∷ []) },
      )
      else none

  -- With the buffer that the host's resource makes.
  unfoldable pub create_memory_buffer : ℕ → View → Storage M → Option (ℕ × Storage M)
  unfolding register_memory_view assign
  create_memory_buffer instance_id buffer s =
      if s.is_acquired
      then (let (r, s') = register_memory_view instance_id buffer false s in
          elim r [
            | too_small ↦ none
            | failed ↦ none
            | registered idx ↦ some (idx, record s' { buffers = assign idx buffer s'.buffers })
          ])
      else none

-- `cudaMemcpy`
unfoldable pub copy_bytes : ℕ → ℕ → ℕ → (ℕ → ℕ) → ℕ → ℕ
copy_bytes dst src n memory a =
    if leb dst a && ltb a (dst + n) then memory (src + (a - dst)) else memory a

module _ {M : Type 0} where
  -- The memory afterwards; `none` is a failed check.
  unfoldable pub copy_to_buffer : ℕ → View → Storage M → (ℕ → ℕ) → Option (ℕ → ℕ)
  unfolding lookup copy_bytes
  copy_to_buffer buffer_idx view s memory = elim (lookup buffer_idx s.buffers) [
    | none ↦ none
    | some dst ↦
        (if leb dst.bytes view.bytes
          then some (copy_bytes dst.data_at view.data_at view.bytes memory)
          else none)
  ]
