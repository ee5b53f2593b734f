-- ===== src/Codable/Views.antt =====
-- cpp/mrc/src/internal/codable/codable_storage.cpp: what a descriptor of a view gives back.
use mrc.Prelude.{
  ℕ, ◌^◌, ◌≤◌, ◌<◌, ◌≡◌, ◌≢◌, ◌⊎◌, inl, inr, refl, Bool, true, false, some, List, [], ◌∷◌, ◌++◌,
  length, arith, not, ◌&&◌, Option-cases, ltb,
}
use mrc.Prelude.Maps.{is_some}
use mrc.Memory.Blocks.{MemoryBlock, contains, find_block}
use mrc.Memory.Blocks.Lookup.{IsDisjoint, Clear, add_block_lem}
use mrc.Codable.{
  MemoryKind, ProtoKind, proto_host, proto_pinned, proto_device, proto_managed, none_kind, host,
  pinned, device, managed, View, RemoteDesc, remote_desc, Storage, encode_memory_type,
  decode_memory_type, encode_descriptor, decode_descriptor, registered, add_descriptor,
  register_memory, register_memory_view, nth,
}

decode_memory_type-encode :
    (kind : MemoryKind)
    → kind ≢ none_kind
    → (k : ProtoKind) × (encode_memory_type kind ≡ some k) × (decode_memory_type k ≡ some kind)
unfolding encode_memory_type decode_memory_type
decode_memory_type-encode none_kind n = elim (n refl) [ ]
decode_memory_type-encode host n = (proto_host, refl, refl)
decode_memory_type-encode pinned n = (proto_pinned, refl, refl)
decode_memory_type-encode device n = (proto_device, refl, refl)
decode_memory_type-encode managed n = (proto_managed, refl, refl)

-- The descriptor of a view, and what it gives back.
encoded :
    (instance_id : ℕ) (view : View) (b : MemoryBlock) (cached : Bool)
    → view.kind ≢ none_kind
    → (d : RemoteDesc) × (encode_descriptor instance_id view b cached ≡ some d)
      × (decode_descriptor d ≡ some view)
      × (d.should_cache ≡ cached)
unfolding encode_descriptor decode_descriptor
encoded instance_id view b cached n =
    let (k, e, d) = decode_memory_type-encode view.kind n in
    (
      record {
        instance_id = instance_id;
        address = view.data_at;
        bytes = view.bytes;
        memory_block_address = b.start;
        memory_block_size = b.bytes;
        memory_kind = k;
        should_cache = cached;
      },
      rw (e, encode_descriptor) refl,
      rw (d, decode_descriptor) refl,
      refl,
    )

-- The block that is registered for a view of its own.
abbrev pub block_of : View → MemoryBlock
block_of view = record { start = view.data_at; bytes = view.bytes }

large :
    (view : View) (force : Bool)
    → (force ≡ true) ⊎ (2 ^ 16 ≤ view.bytes)
    → (not force && ltb view.bytes (2 ^ 16)) ≡ false
large view true (inl e) = refl
large view false (inl e) = cc
large view true (inr m) = refl
large view false (inr m) = ground (arith, m)

contains_self :
    (view : View) → 0 < view.data_at → 0 < view.bytes → contains (block_of view) view.data_at ≡ true
unfolding contains
contains_self view a b = ground (arith, a, b)

pub nth-last : {A : Type 0} (d : A) (ds : List A) → nth (length ds) (ds ++ (d ∷ [])) ≡ some d
unfolding nth
nth-last d [] = refl
nth-last d (x ∷ ds) = nth-last d ds

module _ {M : Type 0} where
  added :
      (instance_id : ℕ) (view : View) (cached : Bool) (b : MemoryBlock) (s : Storage M)
      → view.kind ≢ none_kind
      → (d : RemoteDesc) × (add_descriptor instance_id view cached (some b) s ≡ (
        registered (length s.descriptors),
        record s { descriptors = s.descriptors ++ (remote_desc d ∷ []) },
      ))
        × (decode_descriptor d ≡ some view)
        × (d.should_cache ≡ cached)
  unfolding add_descriptor
  added instance_id view cached b s n =
      let (d, e, back, c) = encoded instance_id view b cached n in
      (d, rw (e, add_descriptor) refl, back, c)

  -- The registered blocks being disjoint, registering a view of a known kind that is not empty and not at the
  -- null address, and whose memory is in a registered block, or which is forced or has at least 64 KiB and
  -- overlaps no registered block, succeeds: it answers with the index of the
  -- new descriptor, which gives back the view and is to be cached just if the memory was registered
  -- before.
  pub register_memory_view_lem :
      (instance_id : ℕ) (view : View) (force : Bool) (s : Storage M)
      → view.kind ≢ none_kind
      → IsDisjoint s.registration_cache
      → 0 < view.data_at
      → 0 < view.bytes
      → (is_some (find_block view.data_at s.registration_cache) ≡ true)
        ⊎ (Clear (block_of view) s.registration_cache × ((force ≡ true) ⊎ (2 ^ 16 ≤ view.bytes)))
      → (d : RemoteDesc) × (s' : Storage M) × (register_memory_view instance_id view force s
          ≡ (registered (length s.descriptors), s'))
        × (nth (length s.descriptors) s'.descriptors ≡ some (remote_desc d))
        × (decode_descriptor d ≡ some view)
        × (d.should_cache ≡ is_some (find_block view.data_at s.registration_cache))
  unfolding register_memory_view
  register_memory_view_lem instance_id view force s n v a b h =
      elim (Option-cases (find_block view.data_at s.registration_cache)) [
        | inr (blk, e) ↦
            let (d, out, back, c) = added instance_id view true blk s n in
            (
              d,
              record s { descriptors = s.descriptors ++ (remote_desc d ∷ []) },
              rw (e, register_memory_view) out,
              nth-last (remote_desc d) s.descriptors,
              back,
              rw e c,
            )
        | inl e ↦ elim h [
          | inl f ↦ ground (arith, e, f)
          | inr (clear, big) ↦
              let s1 : Storage M = register_memory view s in
              let found : find_block view.data_at s1.registration_cache ≡ some (block_of view) =
                unfold register_memory in
                ground (
                  arith,
                  (add_block_lem (block_of view) s.registration_cache v a b clear).1 view.data_at,
                  contains_self view a b,
                ) in
              let (d, out, back, c) = added instance_id view false (block_of view) s1 n in
              (
                d,
                record s1 { descriptors = s1.descriptors ++ (remote_desc d ∷ []) },
                unfold register_memory in
                    rw (e, large view force big, found, register_memory_view) out,
                unfold register_memory in nth-last (remote_desc d) s.descriptors,
                back,
                rw e c,
              )
        ]
      ]
