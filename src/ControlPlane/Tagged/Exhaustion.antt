-- ===== src/ControlPlane/Tagged/Exhaustion.antt =====
-- How many tags an object issues, and what it does afterwards.
use mrc.Prelude.{ℕ, zero, suc, ◌+◌, ◌^◌, ◌<◌, ◌≡◌, none, some, arith}
use mrc.ControlPlane.Tagged.{Tagged, fresh, next_tag, after_calls}

after_calls_lem :
    (n : ℕ) (t : Tagged) → t.uid + n < 2 ^ 16 → after_calls n t ≡ record t { uid = t.uid + n }
unfolding after_calls next_tag
after_calls_lem zero t h = ground arith
after_calls_lem (suc n) t h = ground (arith, after_calls_lem n (next_tag t).1)

-- If its block ends within the word, a new object issues 65534 tags, consecutive from its block
-- plus 2 on, and the call after them throws.
pub after_calls-fresh :
    (tag n : ℕ)
    → tag + 2 ^ 16 < 2 ^ 64
    → (n < 65534 → (next_tag (after_calls n (fresh tag))).0 ≡ some (tag + 2 + n))
      × (n ≡ 65534 → (next_tag (after_calls n (fresh tag))).0 ≡ none)
unfolding next_tag fresh
after_calls-fresh tag n h = (
  λ l. ground (arith, after_calls_lem n (fresh tag)),
  λ e. ground (arith, after_calls_lem n (fresh tag)),
)

-- The error does not last. If its block ends within the word, an object that has issued 65534 tags
-- throws once; `m_uid` has then wrapped to 0, so it goes on to issue its block plus 1 and then, a
-- second time, the first tag that it ever issued.
pub next_tag_reissues :
    (tag : ℕ)
    → tag + 2 ^ 16 < 2 ^ 64
    → let full = after_calls 65534 (fresh tag) in
      ((next_tag full).0 ≡ none)
      × ((next_tag (next_tag full).1).0 ≡ some (tag + 1))
      × ((next_tag (next_tag (next_tag full).1).1).0 ≡ (next_tag (fresh tag)).0)
unfolding next_tag fresh
next_tag_reissues tag h = ground (arith, after_calls_lem 65534 (fresh tag))
