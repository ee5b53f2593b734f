-- ===== src/Runner.antt =====
-- cpp/mrc/src/public/runnable/runner.cpp and cpp/mrc/include/mrc/runnable/runner.hpp: the instances of
-- a runnable, which run at the same time. Each turn of an instance is one access of what the instances
-- share, so a history is the list of the numbers of those whose turn it is. Whether `main` leaves an
-- exception in an instance's context is fixed beforehand, and `main` returns. An instance's number is the
-- rank of its context. There is a completion callback.
pub mod Completion
pub mod Outcome
pub mod Progress
pub mod LostFailure
use mrc.Prelude.{
  ℕ, zero, suc, ◌-◌, Bool, true, false, ◌&&◌, Option, none, some, List, [], ◌∷◌, ltb, leb, ◌==◌,
  if◌then◌else◌, length,
}

pub data State : Type 0 where
  unqueued queued running error completed : State

abbrev pub rank : State → ℕ
rank unqueued = 0
rank queued = 1
rank running = 2
rank error = 3
rank completed = 4

-- `Runnable::State`
pub data RunnableState : Type 0 where
  init owned run_ stop_ kill_ : RunnableState

abbrev pub runnable_rank : RunnableState → ℕ
runnable_rank init = 0
runnable_rank owned = 1
runnable_rank run_ = 2
runnable_rank stop_ = 3
runnable_rank kill_ = 4

pub update_runnable : RunnableState → RunnableState → RunnableState
update_runnable new_state s =
    if ltb (runnable_rank s) (runnable_rank new_state) then new_state else s

-- Where the task of an instance stands. `stores` holds the value of `m_status && context->status()`.
pub data Point : Type 0 where
  starts runs reports completes loads counts calls finished : Point
  stores : Bool → Point

pub record Instance : Type 0 where
  pub state : State
  pub at : Point
  pub context_status : Bool

-- `check_failed` tells whether a CHECK has failed, and `completions` holds what the completion callback
-- was called with, the latest first.
pub record Shared : Type 0 where
  pub status : Bool
  pub remaining_instances : ℕ
  pub check_failed : Bool
  pub completions : List Bool

pub record Runner : Type 0 where
  pub instances : List Instance
  pub shared : Shared
  pub runnable_state : RunnableState
  pub can_run : Bool

-- A new Runner owns its runnable.
pub create : Runner
create = record {
  instances = [];
  shared = record {
    status = true;
    remaining_instances = 0;
    check_failed = false;
    completions = [];
  };
  runnable_state = owned;
  can_run = true;
}

-- Of an instance that exists; `none` is a failed CHECK.
unfoldable pub update_state : State → Instance → Option Instance
update_state new_state i =
    if ltb (rank i.state) (rank new_state) then some (record i { state = new_state }) else none

-- A task that goes on after `update_state`.
unfoldable pub advance : State → Point → Instance → Shared → Instance × Shared
unfolding update_state
advance new_state next i s =
    let changed = update_state new_state i in
    elim changed [
      | none ↦ (record i { at = finished }, record s { check_failed = true })
      | some j ↦ (record j { at = next }, s)
    ]

-- A turn of a task that `enqueue` launches.
unfoldable pub turn : Instance → Shared → Instance × Shared
unfolding advance
turn i s = elim i.at [
  | starts ↦ advance running runs i s
  | runs ↦ (record i { at = reports }, s)
  | reports ↦
      (if i.context_status then (record i { at = completes }, s) else advance error completes i s)
  | completes ↦ advance completed loads i s
  | loads ↦ (record i { at = stores (s.status && i.context_status) }, s)
  | stores b ↦ (record i { at = counts }, record s { status = b })
  | counts ↦ (
    record i { at = if s.remaining_instances - 1 == 0 then calls else finished },
    record s { remaining_instances = s.remaining_instances - 1 },
  )
  | calls ↦ (record i { at = finished }, record s { completions = s.status ∷ s.completions })
  | finished ↦ (i, s)
]

-- A turn of the instance with a number.
unfoldable pub turn_of : ℕ → List Instance → Shared → List Instance × Shared
unfolding turn
turn_of n [] s = ([], s)
turn_of zero (i ∷ is) s = let (j, t) = turn i s in (j ∷ is, t)
turn_of (suc n) (i ∷ is) s = let (js, t) = turn_of n is s in (i ∷ js, t)

unfoldable pub run : List ℕ → List Instance → Shared → List Instance × Shared
unfolding turn_of
run [] is s = (is, s)
run (n ∷ ns) is s = let (js, t) = turn_of n is s in run ns js t

-- The instances that `enqueue` makes and launches, by what becomes of their contexts.
unfoldable pub launch : List Bool → List Instance
launch [] = []
launch (b ∷ bs) = record { state = queued; at = starts; context_status = b } ∷ launch bs

-- `none` is the MrcRuntimeError.
unfoldable pub enqueue : List Bool → Runner → Option Runner
unfolding update_runnable launch
enqueue contexts r =
    if r.can_run
    then some (record r {
      instances = launch contexts;
      shared = record r.shared { remaining_instances = length contexts };
      runnable_state =
          (if ltb (runnable_rank r.runnable_state) (runnable_rank run_)
            then update_runnable run_ r.runnable_state
            else r.runnable_state);
    })
    else none

pub stop : Runner → Runner
unfolding update_runnable
stop r = record r { runnable_state = update_runnable stop_ r.runnable_state }

pub kill : Runner → Runner
unfolding update_runnable
kill r = record r { runnable_state = update_runnable kill_ r.runnable_state }
