-- ===== src/RecentChannel.antt =====
-- cpp/mrc/include/mrc/channel/recent_channel.hpp: a channel that keeps the most recent elements. Each
-- method holds the mutex from its start to its end or its wait, so it is a function on the state.
pub mod Recency
pub mod Reading
use mrc.Prelude.{
  ℕ, Bool, true, false, ◌&&◌, not, List, [], ◌∷◌, ◌++◌, ltb, leb, if◌then◌else◌, length,
}

-- Of `channel::Status`, what this class returns.
pub data Status : Type 0 where
  success closed empty timeout : Status

-- How a read ends: with an element, with a status alone, or still waiting.
pub data Read (A : Type 0) : Type 0 where
  got : A → Read A
  status : Status → Read A
  waits : Read A

pub record RecentChannel (A : Type 0) : Type 0 where
  pub is_shutdown : Bool
  pub max_size : ℕ
  pub deque : List A

-- The calls of other threads.
pub data Other (A : Type 0) : Type 0 where
  writes : A → Other A
  reads closes : Other A

module _ {A : Type 0} where
  pub create : ℕ → RecentChannel A
  create count = record { is_shutdown = false; max_size = count; deque = [] }

  -- `pop_front`, of a deque that is not empty.
  abbrev pub pop_front : List A → List A
  pop_front [] = []
  pop_front (x ∷ xs) = xs

  pub await_write : A → RecentChannel A → Status × RecentChannel A
  await_write x c = if c.is_shutdown then (closed, c) else (
    success,
    record c {
      deque = (if leb c.max_size (length c.deque) then pop_front c.deque else c.deque) ++ (x ∷ []);
    },
  )

  -- The end of each read: take the front, or give the status for an empty deque.
  abbrev pub take_front : Read A → RecentChannel A → List A → Read A × RecentChannel A
  take_front on_empty c [] = (on_empty, c)
  take_front on_empty c (x ∷ xs) = (got x, record c { deque = xs })

  pub await_read : RecentChannel A → Read A × RecentChannel A
  await_read c = if c.is_shutdown then (status closed, c) else take_front waits c c.deque

  pub try_read : RecentChannel A → Read A × RecentChannel A
  try_read c = if c.is_shutdown then (status closed, c) else take_front (status empty) c c.deque

  pub close_channel : RecentChannel A → RecentChannel A
  close_channel c = record c { is_shutdown = true }

  abbrev pub is_empty : List A → Bool
  is_empty [] = true
  is_empty (x ∷ xs) = false

  -- What the other threads do while a wait has given up the mutex.
  abbrev pub other : Other A → RecentChannel A → RecentChannel A
  unfolding await_write try_read close_channel
  other (writes x) c = (await_write x c).1
  other reads c = (try_read c).1
  other closes c = close_channel c

  abbrev pub others : List (Other A) → RecentChannel A → RecentChannel A
  others [] c = c
  others (o ∷ os) c = others os (other o c)

  -- Each turn of the loop reads the clock, and if it waits the others go on. `waits` after the last of the
  -- turns is a call that has not come back yet.
  pub await_read_until : ℕ → List (ℕ × List (Other A)) → RecentChannel A → Read A × RecentChannel A
  await_read_until deadline [] c = (waits, c)
  await_read_until deadline ((now, os) ∷ turns) c =
      let later = await_read_until deadline turns (others os c) in
      if is_empty c.deque && not c.is_shutdown && ltb deadline now
      then later
      else if c.is_shutdown
      then (status closed, c)
      else take_front (status timeout) c c.deque

  pub is_channel_closed : RecentChannel A → Bool
  is_channel_closed c = c.is_shutdown

  pub write_each : List A → RecentChannel A → RecentChannel A
  unfolding await_write
  write_each [] c = c
  write_each (x ∷ xs) c = write_each xs (await_write x c).1
