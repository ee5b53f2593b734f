-- ===== src/Examples/Services.antt =====
-- The service life cycle on small data.
use mrc.Prelude.{◌≤◌, none, some, List, [], ◌∷◌, arith}
use mrc.Service.{
  other_exn, starts, lives, stops, kills, joins, Service, Hooks, init, service_start, Method, start,
  await_live, stop, await_join, run,
}
use mrc.Service.Lifecycle.{IsForward}
use mrc.Service.History.{IsKeeping, times, run-once}

-- A service whose virtual functions return at once, but for the join, which throws.
abbrev hooks : Hooks
hooks = record {
  do_service_start = λ s. (none, s);
  do_service_await_live = λ s. (none, s);
  do_service_stop = λ s. (none, s);
  do_service_kill = λ s. (none, s);
  do_service_await_join = λ s. (some (other_exn 1), s);
}

hooks-IsForward : IsForward hooks
hooks-IsForward = record {
  on_start = λ s. omega arith;
  on_live = λ s. omega arith;
  on_stop = λ s. omega arith;
  on_kill = λ s. omega arith;
  on_join = λ s. omega arith;
}

hooks-IsKeeping : IsKeeping hooks
hooks-IsKeeping = record {
  on_start = λ s v. v;
  on_live = λ s v. v;
  on_stop = λ s v. v;
  on_kill = λ s v. v;
  on_join = λ s v. v;
}

abbrev methods : List Method
methods = start ∷ await_live ∷ stop ∷ start ∷ await_join ∷ []

abbrev started : Service
started = (service_start hooks init).1

run-once_example :
    let cs = (run hooks methods init).calls in
    (times starts cs ≤ 1)
    × (times lives cs ≤ 1)
    × (times stops cs ≤ 1)
    × (times kills cs ≤ 1)
    × (times joins cs ≤ 1)
run-once_example = run-once hooks hooks-IsKeeping methods
