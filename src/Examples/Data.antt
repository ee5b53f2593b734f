-- ===== src/Examples/Data.antt =====
-- Addresses, the recent channel and memory on small data.
use mrc.Prelude.{◌≢◌, map, inr, All, ℕ, ◌≡◌, refl, false, List, [], ◌∷◌, ◌++◌, arith}
use mrc.RecentChannel.{
  RecentChannel, Other, writes, timeout, status, waits, await_read_until, write_each,
}
use mrc.RecentChannel.Recency.{last, write_each-last}
use mrc.RecentChannel.Reading.{await_read_until-deadline}
use mrc.Memory.Blocks.{MemoryBlock, Blocks, find_block}
use mrc.Memory.Blocks.Lookup.{IsDisjoint, search_all, find_block-search_all}
use mrc.Memory.Transient.{Backing, TransientPool, run as run_requests, taken}
use mrc.Memory.Transient.Apart.{AllSeparate, InSome, free, Pairwise, run-Pairwise}
use mrc.Memory.Transient.Disjoint.{Inv}

abbrev three : ℕ
three = 3

abbrev seven : ℕ
seven = 7

abbrev eleven : ℕ
eleven = 11

abbrev address : ℕ
address = 0x0003_0007

-- An open channel of two elements, with one in it.
abbrev channel : RecentChannel ℕ
channel = record { is_shutdown = false; max_size = 2; deque = 7 ∷ [] }

abbrev drained : RecentChannel ℕ
drained = record { is_shutdown = false; max_size = 2; deque = [] }

abbrev written : List ℕ
written = 8 ∷ 9 ∷ 10 ∷ []

abbrev nothing : List ℕ
nothing = []

abbrev low : MemoryBlock
low = record { start = 16; bytes = 16 }

abbrev high : MemoryBlock
high = record { start = 64; bytes = 8 }

abbrev inside : ℕ
inside = 20

abbrev two_blocks : Blocks
two_blocks = (32, low) ∷ (72, high) ∷ []

two_blocks-IsDisjoint : IsDisjoint two_blocks
two_blocks-IsDisjoint = omega arith

abbrev between : MemoryBlock
between = record { start = 32; bytes = 32 }

abbrev next_backing : Backing
next_backing = record { start = 1024; size = 256 }

abbrev pool : TransientPool
pool = record {
  block_size = 256;
  addr = 4096;
  remaining = 10;
  backing = record { start = 3850; size = 256 };
  refills = 1;
}

pool-Inv : Inv pool
pool-Inv = record { inside = omega arith; free = omega arith }

write_each-last_example :
    (write_each written channel).deque ≡ last channel.max_size (channel.deque ++ written)
write_each-last_example = write_each-last written channel refl (omega arith) (omega arith)

-- Two turns after the deadline; in the first something is written.
abbrev late_turns : List (ℕ × List (Other ℕ))
late_turns = (seven, writes 5 ∷ []) ∷ (seven, []) ∷ []

await_read_until-deadline_example :
    (await_read_until three ((three, []) ∷ []) drained ≡ (status timeout, drained))
    × ((await_read_until three late_turns drained).0 ≢ status timeout)
    × (await_read_until three (map (λ (t : ℕ × List (Other ℕ)). (t.0, [])) late_turns) drained
        ≡ (waits, drained))
await_read_until-deadline_example =
    await_read_until-deadline three three [] [] late_turns drained drained refl refl (omega arith)
      (omega arith, (omega arith, tt))

find_block-search_all_example : find_block inside two_blocks ≡ search_all inside two_blocks
find_block-search_all_example = find_block-search_all inside two_blocks two_blocks-IsDisjoint

abbrev requests : List (ℕ × Backing)
requests = (8, next_backing) ∷ (200, next_backing) ∷ (56, next_backing) ∷ []

next-Separate : AllSeparate (free pool ∷ taken requests pool)
unfolding taken
next-Separate = ((inr (omega arith), tt), (tt, tt))

run-Pairwise_example :
    All (λ t. InSome t (free pool ∷ taken requests pool)) (run_requests requests pool)
    × Pairwise (run_requests requests pool)
run-Pairwise_example = run-Pairwise requests pool next-Separate (unfold taken in (omega arith, tt))
