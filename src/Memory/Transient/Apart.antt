-- ===== src/Memory/Transient/Apart.antt =====
-- Buffers of different requests never overlap.
use mrc.Prelude.{
  ℕ, ◌+◌, ◌-◌, ◌≤◌, ◌≡◌, refl, sym, subst, ◌⊎◌, inl, inr, List, [], ◌∷◌, All, arith, ltb, true,
  false, Bool-cases,
}
use mrc.Memory.Transient.Disjoint.{cut, after}
use mrc.Memory.Transient.{Backing, TransientBuffer, TransientPool, refill, await_buffer, run, taken}

-- No common byte.
abbrev pub Apart : TransientBuffer → TransientBuffer → Type 0
Apart t u = (t.addr + t.bytes ≤ u.addr) ⊎ (u.addr + u.bytes ≤ t.addr)

abbrev pub Pairwise : List TransientBuffer → Type 0
Pairwise [] = Unit {0}
Pairwise (t ∷ ts) = All (Apart t) ts × Pairwise ts

abbrev pub Separate : Backing → Backing → Type 0
Separate a b = (a.start + a.size ≤ b.start) ⊎ (b.start + b.size ≤ a.start)

-- What the reusable pool sees to: what it hands out is held by nobody else, and has the block size.
abbrev pub AllSeparate : List Backing → Type 0
AllSeparate [] = Unit {0}
AllSeparate (b ∷ bs) = All (Separate b) bs × AllSeparate bs

abbrev pub InSome : TransientBuffer → List Backing → Type 0
InSome t [] = ⊥
InSome t (b ∷ bs) = ((b.start ≤ t.addr) × (t.addr + t.bytes ≤ b.start + b.size)) ⊎ InSome t bs

-- The part of the current backing buffer that has not been given away.
abbrev pub free : TransientPool → Backing
free p = record { start = p.addr; size = p.remaining }

All-map :
    {A : Type 0} (P Q : A → Type 0) (ts : List A) → ((t : A) → P t → Q t) → All P ts → All Q ts
All-map P Q [] f a = tt
All-map P Q (t ∷ ts) f a = (f t a.0, All-map P Q ts f a.1)

-- The end of a part of memory, from n bytes on.
abbrev rest_of : ℕ → Backing → Backing
rest_of n a = record { start = a.start + n; size = a.size - n }

abbrev Served : List TransientBuffer → List Backing → Type 0
Served ts bs = All (λ t. InSome t bs) ts × Pairwise ts

rest_of-Separate : (n : ℕ) (a b : Backing) → n ≤ a.size → Separate a b → Separate (rest_of n a) b
rest_of-Separate n a b l (inl s) = inl (omega arith)
rest_of-Separate n a b l (inr s) = inr (omega arith)

Apart-from_others :
    (t u : TransientBuffer) (a : Backing) (bs : List Backing)
    → a.start ≤ t.addr
    → t.addr + t.bytes ≤ a.start + a.size
    → All (Separate a) bs
    → InSome u bs
    → Apart t u
Apart-from_others t u a [] l m s i = elim i [ ]
Apart-from_others t u a (b ∷ bs) l m (inl s, ss) (inl i) = inl (omega (arith, i.0, i.1))
Apart-from_others t u a (b ∷ bs) l m (inr s, ss) (inl i) = inr (omega (arith, i.0, i.1))
Apart-from_others t u a (b ∷ bs) l m (s, ss) (inr i) = Apart-from_others t u a bs l m ss i

-- A buffer cut from the start of `a` goes with what is served from the rest of it.
cut_first :
    (n : ℕ) (t : TransientBuffer) (a : Backing) (bs : List Backing) (ts : List TransientBuffer)
    → t.addr ≡ a.start
    → t.bytes ≡ n
    → n ≤ a.size
    → AllSeparate (a ∷ bs)
    → Served ts (rest_of n a ∷ bs)
    → Served (t ∷ ts) (a ∷ bs)
cut_first n t a bs ts e f l s (i, p) =
    let widen : (u : TransientBuffer) → InSome u (rest_of n a ∷ bs) → InSome u (a ∷ bs) =
      λ u k. elim k [ inl j ↦ inl (omega (arith, j.0), omega (arith, j.1, l)) | inr j ↦ inr j ] in
    let clear : (u : TransientBuffer) → InSome u (rest_of n a ∷ bs) → Apart t u = λ u k. elim k [
      | inl j ↦ inl (omega (arith, j.0, e, f))
      | inr j ↦ Apart-from_others t u a bs (omega arith) (omega arith) s.0 j
    ] in
    ((inl (omega arith, omega arith), All-map _ _ ts widen i), (All-map _ _ ts clear i, p))

abbrev Good : ℕ → Backing → List TransientBuffer → List Backing → Type 0
Good k a ts bs = AllSeparate (a ∷ bs) → All (λ (b : Backing). k ≤ b.size) bs → Served ts (a ∷ bs)

moved :
    (k : ℕ) (a : Backing) (ts us : List TransientBuffer) (bs cs : List Backing)
    → (ts ≡ us) × (bs ≡ cs)
    → Good k a us cs
    → Good k a ts bs
moved k a ts us bs cs (e, f) g =
    subst (λ ts. Good k a ts bs) (sym e) (subst (λ bs. Good k a us bs) (sym f) g)

-- What a request does when the pool has enough left, and when not.
run_enough :
    (n : ℕ) (b : Backing) (rs : List (ℕ × Backing)) (p : TransientPool)
    → ltb p.block_size n ≡ false
    → ltb p.remaining n ≡ false
    → (run ((n, b) ∷ rs) p ≡ cut n p ∷ run rs (after n p))
      × (taken ((n, b) ∷ rs) p ≡ taken rs (after n p))
unfolding run taken await_buffer
run_enough n b rs p fits enough =
    (rw (fits, enough, run, await_buffer) refl, rw (fits, enough, taken) refl)

run_short :
    (n : ℕ) (b : Backing) (rs : List (ℕ × Backing)) (p : TransientPool)
    → ltb p.block_size n ≡ false
    → ltb p.remaining n ≡ true
    → (run ((n, b) ∷ rs) p ≡ cut n (refill b p) ∷ run rs (after n (refill b p)))
      × (taken ((n, b) ∷ rs) p ≡ b ∷ taken rs (after n (refill b p)))
unfolding run taken await_buffer refill
run_short n b rs p fits short =
    (rw (fits, short, run, await_buffer) refl, rw (fits, short, taken) refl)

run_large :
    (n : ℕ) (b : Backing) (rs : List (ℕ × Backing)) (p : TransientPool)
    → ltb p.block_size n ≡ true
    → (run ((n, b) ∷ rs) p ≡ run rs p) × (taken ((n, b) ∷ rs) p ≡ taken rs p)
unfolding run taken await_buffer
run_large n b rs p large = (rw (large, run, await_buffer) refl, rw (large, taken) refl)

narrow :
    (n : ℕ) (a : Backing) (bs : List Backing)
    → n ≤ a.size
    → AllSeparate (a ∷ bs)
    → AllSeparate (rest_of n a ∷ bs)
narrow n a bs l (s, ss) = (All-map _ _ bs (λ b. rest_of-Separate n a b l) s, ss)

run-Good :
    (rs : List (ℕ × Backing)) (p : TransientPool)
    → Good p.block_size (free p) (run rs p) (taken rs p)
unfolding refill
run-Good [] p = unfold run in λ s l. (tt, tt)
run-Good ((n, b) ∷ rs) p = elim (Bool-cases (ltb p.block_size n)) [
  | inl large ↦ moved _ _ _ _ _ _ (run_large n b rs p large) (run-Good rs p)
  | inr fits ↦ elim (Bool-cases (ltb p.remaining n)) [
    | inl short ↦ moved _ _ _ _ _ _ (run_short n b rs p fits short) (λ s l.
        let q = after n (refill b p) in
        let room : n ≤ b.size = ground (arith, fits, l.0) in
        let (i, w) =
          cut_first n (cut n (refill b p)) b (taken rs q) (run rs q) refl refl room s.1
            (run-Good rs q (narrow n b (taken rs q) room s.1) l.1) in
        (All-map _ _ (cut n (refill b p) ∷ run rs q) (λ t k. inr k) i, w))
    | inr enough ↦ moved _ _ _ _ _ _ (run_enough n b rs p fits enough) (λ s l.
        let q = after n p in
        let room : n ≤ p.remaining = ground (arith, enough) in
        cut_first n (cut n p) (free p) (taken rs q) (run rs q) refl refl room s
          (run-Good rs q (narrow n (free p) (taken rs q) room s) l))
  ]
]

-- Of requests that are given backing buffers of at least the block size, all disjoint and disjoint from what
-- the pool has left of its own: each buffer lies in what the pool had left or in one of the backing
-- buffers that it took, and no two buffers have a byte in common.
pub run-Pairwise :
    (rs : List (ℕ × Backing)) (p : TransientPool)
    → AllSeparate (free p ∷ taken rs p)
    → All (λ (b : Backing). p.block_size ≤ b.size) (taken rs p)
    → All (λ (t : TransientBuffer). InSome t (free p ∷ taken rs p)) (run rs p) × Pairwise (run rs p)
run-Pairwise rs p s l = run-Good rs p s l
