-- ===== src/Memory/Transient.antt =====
-- cpp/mrc/src/internal/memory/transient_pool.hpp and transient_pool.cpp: buffers cut one after another
-- from a larger buffer. That buffer comes from the reusable pool: each call is given the one that the
-- pool would hand out. `refills` is no member: it counts the buffers taken, to tell them apart.
pub mod Disjoint
pub mod Apart
use mrc.Prelude.{
  ℕ, zero, suc, ◌+◌, ◌-◌, Option, none, some, List, [], ◌∷◌, ltb, leb, ◌==◌, Bool, true, false,
  ◌&&◌, if◌then◌else◌,
}

-- A `memory::buffer` from the pool.
pub record Backing : Type 0 where
  pub start : ℕ
  pub size : ℕ

-- `source` says which backing buffer keeps the bytes alive; `none` for one that was released or moved
-- from. The null address is 0.
pub record TransientBuffer : Type 0 where
  pub addr : ℕ
  pub bytes : ℕ
  pub source : Option ℕ

pub record TransientPool : Type 0 where
  pub block_size : ℕ
  pub addr : ℕ
  pub remaining : ℕ
  pub backing : Backing
  pub refills : ℕ

pub create : ℕ → TransientPool
create block_size = record {
  block_size = block_size;
  addr = 0;
  remaining = 0;
  backing = record { start = 0; size = 0 };
  refills = 0;
}

-- The constructor's loop adds the blocks to the pool; this is the size and number that it adds, and
-- `none` a failed CHECK.
pub initial_blocks : ℕ → ℕ → ℕ → Option (List ℕ)
initial_blocks block_size block_count capacity =
    if ltb block_count capacity then some (repeat block_count) else none
  where
    repeat : ℕ → List ℕ
    repeat zero = []
    repeat (suc n) = block_size ∷ repeat n

unfoldable refill : Backing → TransientPool → TransientPool
refill b p = record p { addr = b.start; remaining = b.size; backing = b; refills = suc p.refills }

-- `none` is the bad_alloc.
pub await_buffer : ℕ → Backing → TransientPool → Option (TransientBuffer × TransientPool)
unfolding refill
await_buffer bytes next p =
    if ltb p.block_size bytes
    then none
    else (let q : TransientPool = if ltb p.remaining bytes then refill next p else p in
        some (
          record { addr = q.addr; bytes = bytes; source = some q.refills },
          record q { addr = q.addr + bytes; remaining = q.remaining - bytes },
        ))

-- A part of a buffer, which shares its source; `none` is a failed CHECK.
pub sub_buffer : ℕ → ℕ → TransientBuffer → Option TransientBuffer
sub_buffer addr bytes b =
    if leb b.addr addr && leb (addr + bytes) (b.addr + b.bytes)
    then some (record { addr = addr; bytes = bytes; source = b.source })
    else none

-- The buffer and whether its hold on the source was given up.
pub release : TransientBuffer → Bool × TransientBuffer
release b =
    if b.addr == 0 then (false, b) else (true, record { addr = 0; bytes = 0; source = none })

-- The move constructor: the new buffer and what is left of the old.
pub move : TransientBuffer → TransientBuffer × TransientBuffer
move b = (b, record { addr = 0; bytes = 0; source = none })

-- The move assignment: this buffer, whose own bytes are given up, and what is left of the other.
pub move_assign : TransientBuffer → TransientBuffer → TransientBuffer × TransientBuffer
move_assign b other = (other, record { addr = 0; bytes = 0; source = none })

-- The buffers that a sequence of requests gets, each with the backing buffer that would be next.
pub run : List (ℕ × Backing) → TransientPool → List TransientBuffer
unfolding await_buffer
run [] p = []
run ((n, b) ∷ rs) p = elim (await_buffer n b p) [ none ↦ run rs p | some (t, q) ↦ t ∷ run rs q ]

-- The backing buffers that the reusable pool hands out in the meantime.
unfoldable pub taken : List (ℕ × Backing) → TransientPool → List Backing
unfolding refill
taken [] p = []
taken ((n, b) ∷ rs) p =
    let left : TransientPool → TransientPool =
      λ q. record q { addr = q.addr + n; remaining = q.remaining - n } in
    let same = taken rs p in
    let kept = taken rs (left p) in
    let filled = taken rs (left (refill b p)) in
    if ltb p.block_size n then same else if ltb p.remaining n then b ∷ filled else kept
