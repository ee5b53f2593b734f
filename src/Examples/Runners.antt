-- ===== src/Examples/Runners.antt =====
-- Runners, pipelines and remote descriptors on small data.
use mrc.Prelude.{
  ℕ, suc, ◌-◌, ◌<◌, ◌≤◌, ◌≡◌, ◌≢◌, refl, Bool, true, false, none, some, List, [], ◌∷◌, ltb,
  if◌then◌else◌, length, all, arith,
}
use mrc.Prelude.Maps.{Map, lookup, contains}
use mrc.Service.{returned, Hooks, init, service_start}
use mrc.Service.Lifecycle.{IsForward}
use mrc.Runner.{run, launch}
use mrc.Runner.Completion.{is_finished, pending, queued_up, run-completions}
use mrc.Runner.Progress.{turns, run-finishes}
use mrc.Runner.LostFailure.{overwriting, overwriting_succeeds}
use mrc.Pipeline.{Controller, update}
use mrc.Pipeline.Updates.{update-refused}
use mrc.Pipeline.FirstUpdate.{IsQuiet}
use mrc.RemoteDescriptor.{int32_max, DecrementMessage, Manager, handle_each}
use mrc.RemoteDescriptor.Tokens.{Positive, tokens_out, returned as returned_tokens, handle_each_lem}

-- One context succeeds, the other one fails.
abbrev contexts : List Bool
contexts = true ∷ false ∷ []

abbrev good_contexts : List Bool
good_contexts = true ∷ true ∷ []

abbrev schedule : List ℕ
schedule = 0 ∷ 1 ∷ 0 ∷ 1 ∷ 0 ∷ 1 ∷ 0 ∷ 1 ∷ 0 ∷ 1 ∷ 0 ∷ 1 ∷ 0 ∷ 1 ∷ 0 ∷ 1 ∷ []

enough_turns : (k : ℕ) → k < length contexts → 8 ≤ turns k schedule
enough_turns k h = ground arith

-- A segment whose virtual functions return at once.
abbrev quiet : Hooks
quiet = record {
  do_service_start = λ s. (none, s);
  do_service_await_live = λ s. (none, s);
  do_service_stop = λ s. (none, s);
  do_service_kill = λ s. (none, s);
  do_service_await_join = λ s. (none, s);
}

abbrev segment_hooks : ℕ → Hooks
segment_hooks a = quiet

segment_hooks-IsForward : (a : ℕ) → IsForward (segment_hooks a)
segment_hooks-IsForward a = record {
  on_start = λ s. omega arith;
  on_live = λ s. omega arith;
  on_stop = λ s. omega arith;
  on_kill = λ s. omega arith;
  on_join = λ s. omega arith;
}

abbrev always : ℕ → Bool
always a = true

abbrev address : ℕ
address = 65536

-- One segment, which runs.
abbrev running_controller : Controller
running_controller = record {
  pipeline = record {
    segments = (address, (service_start quiet init).1) ∷ [];
    joinable = true;
    partition_count = 1;
  };
  current_segments = (address, 0) ∷ [];
}

-- The same assignment and one segment more.
abbrev assignment : Map ℕ
assignment = (address, 0) ∷ (131072, 0) ∷ []

segment_hooks-IsQuiet : (a : ℕ) → IsQuiet (segment_hooks a)
segment_hooks-IsQuiet a = record { on_start = λ s. refl; on_live = λ s. refl }

abbrev two : ℕ
two = 2

-- Two objects, of which the second one has five tokens left.
abbrev manager : Manager
manager = record { instance_id = 1; stored_objects = (16, int32_max) ∷ (32, 5) ∷ [] }

abbrev messages : List DecrementMessage
messages =
    record { object_id = 32; tokens = 2 }
    ∷ record { object_id = 16; tokens = 7 }
    ∷ record { object_id = 32; tokens = 3 }
    ∷ []

manager-Positive : Positive manager
manager-Positive id = unfold lookup in ground arith

few_tokens : (id : ℕ) → returned_tokens id messages ≤ tokens_out id manager
few_tokens id = unfold lookup in ground arith

run-completions_example :
    let (is, s) = run schedule (launch contexts) (queued_up (length contexts)) in
    (s.check_failed ≡ false)
    × (length s.completions ≡ (if all (λ i. is_finished i.at) is then 1 else 0))
    × (s.remaining_instances ≡ pending is)
run-completions_example = run-completions contexts schedule (omega arith)

run-finishes_example :
    let (is, s) = run schedule (launch contexts) (queued_up (length contexts)) in
    (all (λ i. is_finished i.at) is ≡ true) × (length s.completions ≡ 1)
run-finishes_example = run-finishes contexts schedule (omega arith) enough_turns

overwriting_succeeds_example :
    (run
      (overwriting contexts)
      (launch (true ∷ contexts))
      (queued_up (suc (length contexts)))).1.completions
    ≡ true ∷ []
overwriting_succeeds_example = overwriting_succeeds contexts

update-refused_example :
    let (o, c') = update always segment_hooks assignment running_controller in
    (o ≢ returned) × (c'.current_segments ≡ running_controller.current_segments)
update-refused_example =
    update-refused always segment_hooks segment_hooks-IsForward assignment running_controller
      address (unfold lookup service_start init in refl)

handle_each_lem_example :
    (m' : Manager) × (handle_each messages manager ≡ some m')
    × ((id : ℕ) → tokens_out id m' ≡ tokens_out id manager - returned_tokens id messages)
    × ((id : ℕ)
        → contains id m'.stored_objects
          ≡ ltb 0 (tokens_out id manager - returned_tokens id messages))
handle_each_lem_example =
    handle_each_lem messages manager manager-Positive
      (omega arith, (omega arith, (omega arith, tt))) few_tokens
