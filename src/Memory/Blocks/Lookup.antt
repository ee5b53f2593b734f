-- ===== src/Memory/Blocks/Lookup.antt =====
-- The blocks stay disjoint, and an address finds the one block that contains it.
use mrc.Prelude.{
  ℕ, ◌≤◌, ◌<◌, ◌≡◌, ◌⊎◌, inl, inr, refl, Option, none, some, [], ◌∷◌, ltb, if◌then◌else◌, arith,
  Bool-cases,
}
use mrc.Prelude.Maps.{erase}
use mrc.Memory.Blocks.{
  MemoryBlock, end_of, contains, Blocks, add_block, find_entry, find_block, drop_block, drop_entry,
  owner,
}

-- From the address `lo` on, the blocks follow one another without overlap, each under its end.
abbrev pub From : ℕ → Blocks → Type 0
From lo [] = Unit {0}
From lo ((k, b) ∷ m) = (lo ≤ b.start) × (0 < b.start) × (0 < b.bytes) × (k ≡ end_of b) × From k m

abbrev pub IsDisjoint : Blocks → Type 0
IsDisjoint m = From 0 m

-- A block that overlaps none of the map's.
abbrev pub Clear : MemoryBlock → Blocks → Type 0
Clear n [] = Unit {0}
Clear n ((k, b) ∷ m) = ((end_of n ≤ b.start) ⊎ (end_of b ≤ n.start)) × Clear n m

-- The map, searched block by block.
abbrev pub search_all : ℕ → Blocks → Option MemoryBlock
search_all p [] = none
search_all p ((k, b) ∷ m) = if contains b p then some b else search_all p m

From-mono : (lo lo' : ℕ) (m : Blocks) → lo' ≤ lo → From lo m → From lo' m
From-mono lo lo' [] h f = tt
From-mono lo lo' ((k, b) ∷ m) h f = (omega arith, f.1, f.2, f.3, f.4)

none_below : (p lo : ℕ) (m : Blocks) → From lo m → p < lo → search_all p m ≡ none
unfolding contains
none_below p lo [] f h = refl
none_below p lo ((k, b) ∷ m) f h = ground (arith, none_below p k m f.4)

find-From : (p lo : ℕ) (m : Blocks) → From lo m → find_block p m ≡ search_all p m
unfolding find_block
find-From p lo [] f = refl
find-From p lo ((k, b) ∷ m) f = ground (arith, find-From p k m f.4, none_below p k m f.4)

-- Among disjoint blocks, the search by the upper bound finds what a search through all blocks
-- finds.
pub find_block-search_all : (p : ℕ) (m : Blocks) → IsDisjoint m → find_block p m ≡ search_all p m
find_block-search_all p m v = find-From p 0 m v

add-From :
    (lo : ℕ) (n : MemoryBlock) (m : Blocks)
    → From lo m
    → lo ≤ n.start
    → 0 < n.start
    → 0 < n.bytes
    → Clear n m
    → From lo (add_block n m)
unfolding add_block
add-From lo n [] f h p q c = (h, p, q, refl, tt)
add-From lo n ((k, b) ∷ m) f h p q c = ground (arith, add-From k n m f.4)

search-add :
    (p lo : ℕ) (n : MemoryBlock) (m : Blocks)
    → From lo m
    → 0 < n.bytes
    → Clear n m
    → search_all p (add_block n m) ≡ (if contains n p then some n else search_all p m)
unfolding add_block contains
search-add p lo n [] f q c = refl
search-add p lo n ((k, b) ∷ m) f q c = ground (arith, search-add p k n m f.4 q c.1)

-- A new block that is neither null nor empty and overlaps none of a map of disjoint blocks leaves
-- them disjoint. From then on its addresses find it, and every other address finds what it found
-- before.
pub add_block_lem :
    (n : MemoryBlock) (m : Blocks)
    → IsDisjoint m
    → 0 < n.start
    → 0 < n.bytes
    → Clear n m
    → IsDisjoint (add_block n m)
      × ((p : ℕ) → find_block p (add_block n m) ≡ (if contains n p then some n else find_block p m))
add_block_lem n m v h q c =
    let w : IsDisjoint (add_block n m) = add-From 0 n m v (omega arith) h q c in
    (
      w,
      λ p.
          rw (find_block-search_all p (add_block n m) w, find_block-search_all p m v)
            (search-add p 0 n m v q c),
    )

erase-From : (lo k : ℕ) (m : Blocks) → From lo m → From lo (erase k m)
unfolding erase
erase-From lo k [] f = tt
erase-From lo k ((j, b) ∷ m) f =
    ground (arith, erase-From j k m f.4, From-mono j lo (erase k m), erase-From lo k m)

erase_absent : (k : ℕ) (m : Blocks) → From k m → erase k m ≡ m
unfolding erase
erase_absent k [] f = refl
erase_absent k ((j, b) ∷ m) f = ground (arith, erase_absent k m (From-mono j k m (omega arith) f.4))

-- What the erasure of the entry that was found does to a search.
erased :
    (p q lo k : ℕ) (b : MemoryBlock) (m : Blocks)
    → From lo m
    → find_entry q m ≡ some (k, b)
    → (lo < k)
      × (lo ≤ b.start)
      × (search_all p (erase k m) ≡ (if contains b p then none else search_all p m))
unfolding find_entry erase contains
erased p q lo k b [] f e = cc
erased p q lo k b ((j, d) ∷ m) f e = elim (Bool-cases (ltb q j)) [
  | inl here ↦ ground (arith, erase_absent j m f.4, none_below p j m f.4)
  | inr later ↦ ground (arith, erased p q j k b m f.4)
]

drop_entry-From :
    (q : ℕ) (o : Option (ℕ × MemoryBlock)) (m : Blocks) → From 0 m → From 0 (drop_entry q o m)
drop_entry-From q none m v = v
drop_entry-From q (some (k, b)) m v = ground (arith, erase-From 0 k m v)

-- What a search finds once the block of an entry has been dropped.
abbrev pub without : ℕ → Option MemoryBlock → Option MemoryBlock → Option MemoryBlock
without p none o = o
without p (some b) o = if contains b p then none else o

search-drop_entry :
    (p q : ℕ) (o : Option (ℕ × MemoryBlock)) (m : Blocks)
    → From 0 m
    → find_entry q m ≡ o
    → search_all p (drop_entry q o m) ≡ without p (owner q o) (search_all p m)
search-drop_entry p q none m v e = refl
search-drop_entry p q (some (k, b)) m v e = ground (arith, erased p q 0 k b m v e)

-- Among disjoint blocks, dropping by an address forgets exactly the block that contains it, if
-- there is one: addresses of that block are no longer found, all others are as before, and the
-- blocks stay disjoint.
pub drop_block_lem :
    (q : ℕ) (m : Blocks)
    → IsDisjoint m
    → IsDisjoint (drop_block q m)
      × ((p : ℕ) → find_block p (drop_block q m) ≡ without p (find_block q m) (find_block p m))
drop_block_lem q m v =
    let w : IsDisjoint (drop_block q m) =
      unfold drop_block in drop_entry-From q (find_entry q m) m v in
    (
      w,
      λ p.
          rw (find_block-search_all p (drop_block q m) w, find_block-search_all p m v)
            (unfold drop_block find_block in search-drop_entry p q (find_entry q m) m v refl),
    )
