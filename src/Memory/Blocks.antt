-- ===== src/Memory/Blocks.antt =====
-- cpp/mrc/src/internal/memory/memory_block.hpp and block_manager.hpp: blocks of memory in a map whose
-- keys are their end addresses. An address is a number, the null pointer 0; no address sum wraps.
pub mod Lookup
use mrc.Prelude.{
  ℕ, ◌+◌, ◌-◌, Bool, true, false, ◌&&◌, ◌||◌, Option, none, some, List, [], ◌∷◌, ltb, leb, ◌==◌,
  if◌then◌else◌, map, length, not,
}
use mrc.Prelude.Maps.{Map, assign, erase}

pub record MemoryBlock : Type 0 where
  pub start : ℕ
  pub bytes : ℕ

abbrev pub end_of : MemoryBlock → ℕ
end_of b = b.start + b.bytes

unfoldable pub contains : MemoryBlock → ℕ → Bool
contains b ptr = not (b.start == 0) && leb b.start ptr && ltb ptr (end_of b)

-- `none` is the runtime_error.
pub distance : MemoryBlock → ℕ → Option ℕ
unfolding contains
distance b ptr = if contains b ptr then some (ptr - b.start) else none

-- `none` is the null pointer.
pub offset : MemoryBlock → ℕ → Option ℕ
offset b distance = if ltb b.bytes distance then none else some (b.start + distance)

abbrev pub Blocks : Type 0
Blocks = Map MemoryBlock

unfoldable pub add_block : MemoryBlock → Blocks → Blocks
unfolding assign
add_block b m = assign (end_of b) b m

-- `upper_bound`: the first entry whose key lies above the address.
unfoldable pub find_entry : ℕ → Blocks → Option (ℕ × MemoryBlock)
find_entry ptr [] = none
find_entry ptr ((k, b) ∷ m) = if ltb ptr k then some (k, b) else find_entry ptr m

-- The block of an entry, if it contains the address.
abbrev pub owner : ℕ → Option (ℕ × MemoryBlock) → Option MemoryBlock
owner ptr none = none
owner ptr (some (k, b)) = if contains b ptr then some b else none

unfoldable pub find_block : ℕ → Blocks → Option MemoryBlock
unfolding find_entry contains
find_block ptr m = owner ptr (find_entry ptr m)

abbrev pub drop_entry : ℕ → Option (ℕ × MemoryBlock) → Blocks → Blocks
drop_entry ptr none m = m
drop_entry ptr (some (k, b)) m = if contains b ptr then erase k m else m

unfoldable pub drop_block : ℕ → Blocks → Blocks
unfolding find_entry contains erase
drop_block ptr m = drop_entry ptr (find_entry ptr m) m

pub owns : ℕ → Blocks → Bool
unfolding find_block
owns addr m = elim (find_block addr m) [ none ↦ false | some b ↦ contains b addr ]

pub size : Blocks → ℕ
size m = length m

pub clear : Blocks → Blocks
clear m = []

pub blocks : Blocks → List MemoryBlock
blocks m = map (λ e. e.1) m
