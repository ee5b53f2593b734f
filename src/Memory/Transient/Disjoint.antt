-- ===== src/Memory/Transient/Disjoint.antt =====
-- The buffers stay inside their backing buffers and do not overlap.
use mrc.Prelude.{
  ℕ, suc, ◌+◌, ◌-◌, ◌≤◌, ◌<◌, ◌≡◌, refl, none, some, ltb, if◌then◌else◌, arith, Bool-cases, inl,
  inr,
}
use mrc.Memory.Transient.{Backing, TransientBuffer, TransientPool, refill, await_buffer}

-- The free bytes are the end of the backing buffer.
pub record Inv (p : TransientPool) : Type 0 where
  pub inside : p.backing.start ≤ p.addr
  pub free : p.addr + p.remaining ≡ p.backing.start + p.backing.size

-- What a request gives: bytes inside the backing buffer, just below the free ones.
abbrev pub Cut : ℕ → TransientBuffer → TransientPool → Type 0
Cut n t q =
    Inv q
    × (t.bytes ≡ n)
    × (t.source ≡ some q.refills)
    × (q.backing.start ≤ t.addr)
    × (t.addr + t.bytes ≡ q.addr)
    × (q.addr ≤ q.backing.start + q.backing.size)

-- What the request gets from a pool that has taken any new backing buffer it needs.
abbrev pub cut : ℕ → TransientPool → TransientBuffer
cut n q = record { addr = q.addr; bytes = n; source = some q.refills }

abbrev pub after : ℕ → TransientPool → TransientPool
after n q = record q { addr = q.addr + n; remaining = q.remaining - n }

after-Cut : (n : ℕ) (q : TransientPool) → Inv q → n ≤ q.remaining → Cut n (cut n q) (after n q)
after-Cut n q v h =
    let f = v.free in
    let i = v.inside in
    (record { inside = omega arith; free = omega arith }, refl, refl, i, refl, omega arith)

refill-Inv : (b : Backing) (p : TransientPool) → Inv (refill b p)
unfolding refill
refill-Inv b p = record { inside = omega arith; free = refl }

-- In a pool whose free bytes are the end of its backing buffer, and if the next backing buffer has
-- the block size: a request that is no larger than a block succeeds. It gets that many bytes inside
-- the current backing buffer, directly below what stays free, which is again its end. A new backing
-- buffer is taken exactly when the current one has too little left. A larger request fails.
pub await_buffer_lem :
    (n : ℕ) (b : Backing) (p : TransientPool)
    → Inv p
    → b.size ≡ p.block_size
    → (p.block_size < n → await_buffer n b p ≡ none)
      × (n ≤ p.block_size
          → (t : TransientBuffer) × (q : TransientPool) × (await_buffer n b p ≡ some (t, q))
            × Cut n t q
            × (q.refills ≡ (if ltb p.remaining n then suc p.refills else p.refills))
            × (n ≤ p.remaining → t.addr ≡ p.addr))
unfolding await_buffer refill
await_buffer_lem n b p v e = (
  λ h. ground arith,
  λ h. elim (Bool-cases (ltb p.remaining n)) [
    | inl short ↦ (
      cut n (refill b p),
      after n (refill b p),
      ground arith,
      after-Cut n (refill b p) (refill-Inv b p) (omega arith),
      ground arith,
      ground arith,
    )
    | inr enough ↦
        (cut n p, after n p, ground arith, after-Cut n p v (ground arith), ground arith, λ _. refl)
  ],
)
