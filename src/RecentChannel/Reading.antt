-- ===== src/RecentChannel/Reading.antt =====
-- What reads return, on a closed channel, at a deadline, and otherwise.
use mrc.Prelude.{
  Bool-cases, inl, inr, ℕ, Bool, ◌&&◌, not, ◌≢◌, All, map, ltb, if◌then◌else◌, ◌≤◌, ◌<◌, ◌≡◌, refl,
  true, false, List, [], ◌∷◌, arith,
}
use mrc.RecentChannel.{
  RecentChannel, Other, is_empty, take_front, others, success, closed, timeout, Read, got, status,
  waits, await_write, await_read, try_read, await_read_until, close_channel, is_channel_closed,
}

module _ {A : Type 0} where
  -- The three reads agree: on an open channel that holds something each takes the oldest element and
  -- leaves the rest; they differ only in what they do when it is empty.
  pub reads_agree :
      (deadline now : ℕ) (os : List (Other A)) (turns : List (ℕ × List (Other A))) (x : A)
      (xs : List A) (c : RecentChannel A)
      → c.is_shutdown ≡ false
      → c.deque ≡ x ∷ xs
      → let r : Read A × RecentChannel A = (got x, record c { deque = xs }) in
        (await_read c ≡ r)
        × (try_read c ≡ r)
        × (await_read_until deadline ((now, os) ∷ turns) c ≡ r)
  unfolding await_read try_read await_read_until
  reads_agree deadline now os turns x xs c o e = ground (arith, o, e)

  empty-and-closed : (l : List A) (b : Bool) → (is_empty l && false && b) ≡ false
  empty-and-closed [] b = refl
  empty-and-closed (x ∷ xs) b = refl

  -- Closing is final: after it every read and write answers `closed` and changes nothing, so that what
  -- the channel still held can no longer be read.
  pub closed_for_good :
      (deadline now : ℕ) (os : List (Other A)) (turns : List (ℕ × List (Other A))) (x : A)
      (c : RecentChannel A)
      → let c' = close_channel c in
        (is_channel_closed c' ≡ true)
        × (c'.deque ≡ c.deque)
        × (await_write x c' ≡ (closed, c'))
        × (await_read c' ≡ (status closed, c'))
        × (try_read c' ≡ (status closed, c'))
        × (await_read_until deadline ((now, os) ∷ turns) c' ≡ (status closed, c'))
  unfolding close_channel is_channel_closed await_write await_read try_read await_read_until
  closed_for_good deadline now os turns x c =
      (refl, refl, refl, refl, refl, rw (empty-and-closed c.deque (ltb deadline now)) refl)

  no_timeout :
      (b late : Bool) (l : List A) (c : RecentChannel A)
      → (is_empty l && not b && late) ≡ false
      → late ≡ true
      → (if b then (status closed, c) else take_front (status timeout) c l).0 ≢ status timeout
  no_timeout true late l c h t = λ e. cc
  no_timeout false late [] c h t = λ e. cc
  no_timeout false late (x ∷ xs) c h t = λ e. cc

  late_turns :
      (deadline : ℕ) (turns : List (ℕ × List (Other A))) (c : RecentChannel A)
      → All (λ (t : ℕ × List (Other A)). deadline < t.0) turns
      → (await_read_until deadline turns c).0 ≢ status timeout
  unfolding await_read_until
  late_turns deadline [] c l = λ e. cc
  late_turns deadline ((now, os) ∷ turns) c l =
      let stays = is_empty c.deque && not c.is_shutdown && ltb deadline now in
      elim (Bool-cases stays) [
        | inl y ↦ rw (y, await_read_until) (late_turns deadline turns (others os c) l.1)
        | inr n ↦
            rw (n, await_read_until)
              (no_timeout c.is_shutdown (ltb deadline now) c.deque c n (ground (arith, l.0)))
      ]

  quiet_turns :
      (deadline : ℕ) (turns : List (ℕ × List (Other A))) (c : RecentChannel A)
      → c.is_shutdown ≡ false
      → c.deque ≡ []
      → All (λ (t : ℕ × List (Other A)). deadline < t.0) turns
      → await_read_until deadline (map (λ (t : ℕ × List (Other A)). (t.0, [])) turns) c ≡ (waits, c)
  unfolding await_read_until
  quiet_turns deadline [] c o e l = refl
  quiet_turns deadline ((now, os) ∷ turns) c o e l =
      let stays : (is_empty c.deque && not c.is_shutdown && ltb deadline now) ≡ true =
        rw (e, o) (ground (arith, l.0)) in
      rw (stays, await_read_until) (quiet_turns deadline turns c o e l.1)

  -- The test of the deadline is the wrong way round. On an open, empty channel a deadline that has not
  -- passed at the first turn gives a timeout at once. With a deadline that has passed at every turn no read
  -- ever times out, whatever the channel holds and the other threads do, and if they do nothing a
  -- read of an open, empty channel has not come back after any number of turns.
  pub await_read_until-deadline :
      (deadline now : ℕ) (os : List (Other A)) (turns late : List (ℕ × List (Other A)))
      (c d : RecentChannel A)
      → c.is_shutdown ≡ false
      → c.deque ≡ []
      → now ≤ deadline
      → All (λ (t : ℕ × List (Other A)). deadline < t.0) late
      → (await_read_until deadline ((now, os) ∷ turns) c ≡ (status timeout, c))
        × ((await_read_until deadline late d).0 ≢ status timeout)
        × (await_read_until deadline (map (λ (t : ℕ × List (Other A)). (t.0, [])) late) c
            ≡ (waits, c))
  unfolding await_read_until
  await_read_until-deadline deadline now os turns late c d o e l m =
      (ground (arith, o, e, l), late_turns deadline late d m, quiet_turns deadline late c o e m)

  -- What is written to an empty open channel with room is the next thing read, and nothing is left.
  pub read-write :
      (x : A) (c : RecentChannel A)
      → c.is_shutdown ≡ false
      → c.deque ≡ []
      → let (s, c') = await_write x c in (s ≡ success) × (try_read c' ≡ (got x, c))
  unfolding await_write try_read
  read-write x c o e = ground arith
