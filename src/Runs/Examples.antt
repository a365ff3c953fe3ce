-- ===== src/Runs/Examples.antt =====
-- Runs of both managers on concrete data.
use llm_router_server_dashbo.Base.{
  ℕ, ◌≡◌, refl, Bool, true, false, Option, none, some, List, [], ◌∷◌, ◌++◌, arith, inl,
}
use llm_router_server_dashbo.Base.Dict.{lookup}
use llm_router_server_dashbo.Runs.Table.{
  RunStatus, cancelled, queued, running, failed, completed, RunTable, Ending,
}
use llm_router_server_dashbo.Runs.Target.{Engines, last_segment, resolve}
use llm_router_server_dashbo.Runs.Evals.{
  Env, EvalRequest, Evals, Exit, parsed, missing, turn, pump, cancel,
}
use llm_router_server_dashbo.Runs.Steps.{
  Event, submitted, enqueued, turned, start_recorded, exited, cancel_asked, deleted, configured,
  load_test, on_events,
}
use llm_router_server_dashbo.Runs.Budget.{IsWithin, on_events-IsWithin}
use llm_router_server_dashbo.Runs.Order.{IsSublist, all_started, all_joined, on_events-IsInOrder}
use llm_router_server_dashbo.Runs.Places.{IsSeparate}
use llm_router_server_dashbo.Runs.Settled.{IsConfigured, IsSettled, pump-IsSettled}
use llm_router_server_dashbo.Runs.Status.{Keeps}
use llm_router_server_dashbo.Runs.Tracked.{on_events-IsTracked}
use llm_router_server_dashbo.Runs.Tracked.State.{IsTracked}
use llm_router_server_dashbo.Runs.LoadTest.{
  Perf, PerfEnv, PerfRequest, begin_test, spawn_test, start_test,
}
use llm_router_server_dashbo.Runs.Exclusion.{
  Bench, BenchEvent, evaluated, test_asked, test_exited, test_cancelled, on_bench_events,
  IsExclusive, free, on_bench_events-IsExclusive,
}

abbrev engines : Engines
engines =
    (
      "m",
      record {
        model_tag = "org/m";
        lora_modules = some "adapter" ∷ [];
        instances = ("a", 8001) ∷ [];
      },
    )
    ∷ []

abbrev env : Env
env = record {
  router_url = "http://router";
  run_dir = λ _. "runs";
  text = λ _. "8001";
  dumps_list = λ _. "[]";
  dumps = λ _. "{}";
  engines = engines;
}

-- the model is no longer configured
abbrev bare_env : Env
bare_env = record env { engines = [] }

abbrev request : ℕ → EvalRequest
request batch = record {
  model = "m";
  target = none;
  instance_key = none;
  datasets = "gsm8k" ∷ [];
  name = none;
  eval_batch_size = some batch;
}

abbrev no_runs : RunTable
no_runs = record { rows = []; next_id = 1 }

abbrev idle_evals : Evals
idle_evals = record {
  concurrency_budget = 32;
  perf_busy = false;
  procs = [];
  spawning = [];
  inserted = [];
  waiting = [];
  pending = [];
  batch = [];
  cancelled_ids = [];
  table = no_runs;
}

abbrev done : Exit
done = record { is_zero = true; rc = "0"; file = parsed "{}"; detail = none }

-- The second request does not fit beside the first, and the third, whose insert is back before that of the
-- second, waits ahead of it; the row of the first says that it runs only when the others have asked.
abbrev events : List Event
events =
    submitted 10 env (request 20)
    ∷ enqueued 1
    ∷ turned env
    ∷ submitted 11 env (request 20)
    ∷ submitted 12 env (request 8)
    ∷ start_recorded 12 1
    ∷ enqueued 3
    ∷ enqueued 2
    ∷ turned env
    ∷ turned env
    ∷ start_recorded 13 3
    ∷ cancel_asked 13 3
    ∷ deleted 3
    ∷ exited 20 env 1 done
    ∷ exited 21 env 3 done
    ∷ turned env
    ∷ []

idle_evals-IsSeparate : IsSeparate idle_evals
idle_evals-IsSeparate k = omega arith

on_events-IsWithin_example : IsWithin 32 (on_events events idle_evals)
on_events-IsWithin_example =
    on_events-IsWithin 32 events idle_evals
      (
        tt,
        (
          tt,
          (tt, (tt, (tt, (tt, (tt, (tt, (tt, (tt, (tt, (tt, (tt, (tt, (tt, (tt, tt)))))))))))))),
        ),
      )
      idle_evals-IsSeparate (record { budget = omega arith; within = inl (omega arith) })

on_events-IsInOrder_example :
    IsSublist
      (all_started events idle_evals ++ (on_events events idle_evals).waiting)
      (idle_evals.waiting ++ all_joined events idle_evals)
on_events-IsInOrder_example = on_events-IsInOrder events idle_evals

started_run :
    (all_started events idle_evals ≡ 1 ∷ 3 ∷ 2 ∷ [])
    × (all_joined events idle_evals ≡ 1 ∷ 3 ∷ 2 ∷ [])
unfolding resolve lookup llm_router_server_dashbo.Runs.Steps.on_event
    llm_router_server_dashbo.Runs.Table.create_eval_run
    llm_router_server_dashbo.Runs.Evals.used_budget
started_run = (refl, refl)

on_events-IsTracked_example :
    IsTracked (on_events events idle_evals)
    × Keeps idle_evals.table.next_id idle_evals.table.rows (on_events events idle_evals).table.rows
on_events-IsTracked_example = on_events-IsTracked events idle_evals idle_evals-IsSeparate (record {
  begun = λ k there. absurd (omega (arith, there));
  waits = λ k there. absurd (omega (arith, there));
  runs = λ k there. absurd (omega (arith, there));
  spawned = λ k there. cc;
})

-- two that wait, beside none
abbrev waiting_evals : Evals
waiting_evals = record idle_evals {
  waiting = 1 ∷ 2 ∷ [];
  pending = (1, request 20) ∷ (2, request 20) ∷ [];
  batch = (1, 20) ∷ (2, 20) ∷ [];
}

waiting_evals-IsConfigured : IsConfigured env waiting_evals.pending
unfolding resolve lookup
waiting_evals-IsConfigured = (refl, (refl, tt))

pump-IsSettled_example :
    (next : Evals) × (pump 10 env waiting_evals ≡ some (false, next)) × IsSettled next
pump-IsSettled_example = pump-IsSettled 10 env waiting_evals waiting_evals-IsConfigured

-- The first runs, the second waits for it.
abbrev outline : Option (Bool × Evals) → Option (Bool × List ℕ × List ℕ)
outline none = none
outline (some (raised, st)) = some (raised, st.procs, st.waiting)

pump_run : outline (pump 10 env waiting_evals) ≡ some (false, 1 ∷ [], 2 ∷ [])
unfolding pump resolve lookup llm_router_server_dashbo.Runs.Evals.used_budget
pump_run = refl

-- A model that is gone when its run is launched: the launch raises, and what waits behind stays although nothing
-- runs.
raised_run : outline (pump 10 bare_env waiting_evals) ≡ some (true, [], 2 ∷ [])
unfolding pump resolve lookup
raised_run = refl

-- The third fits beside the first, but it waits on after the second was cancelled: nothing pumps.
abbrev cancelled_head : List Event
cancelled_head =
    submitted 10 env (request 20)
    ∷ enqueued 1
    ∷ turned env
    ∷ start_recorded 10 1
    ∷ submitted 11 env (request 20)
    ∷ enqueued 2
    ∷ submitted 12 env (request 8)
    ∷ enqueued 3
    ∷ turned env
    ∷ cancel_asked 13 2
    ∷ []

cancel_leaves_waiting :
    ((on_events cancelled_head idle_evals).procs ≡ 1 ∷ [])
    × ((on_events cancelled_head idle_evals).waiting ≡ 3 ∷ [])
    × (outline (pump 13 env (on_events cancelled_head idle_evals)) ≡ some (false, 3 ∷ 1 ∷ [], []))
unfolding on_events pump resolve lookup llm_router_server_dashbo.Runs.Steps.on_event
    llm_router_server_dashbo.Runs.Table.create_eval_run
    llm_router_server_dashbo.Runs.Evals.used_budget
    llm_router_server_dashbo.Runs.Table.start_eval_run
cancel_leaves_waiting = (refl, refl, refl)

abbrev idle_perf : Perf
idle_perf = record { current = none; procs = []; cancelled_ids = []; table = no_runs }

abbrev perf_env : PerfEnv
perf_env = record {
  router_url = "http://router";
  run_dir = λ _. "runs";
  text = λ _. "8001";
  dumps = λ _. "{}";
  engines = engines;
  embedding_server = none;
}

abbrev sweep : PerfRequest
sweep = record {
  model = "m";
  mode = none;
  target = some "instance";
  instance_key = some "m::a";
  endpoint = none;
  name = none;
}

-- Two requests whose checks both come before either process.
abbrev raced : Option (ℕ × Perf) → Option (List ℕ)
raced none = none
raced (some (first, st)) = elim (begin_test 11 perf_env sweep st) [
  | none ↦ none
  | some (second, next) ↦ some (spawn_test second (spawn_test first next)).procs
]

two_tests_at_once : raced (begin_test 10 perf_env sweep idle_perf) ≡ some (2 ∷ 1 ∷ [])
unfolding begin_test spawn_test resolve lookup llm_router_server_dashbo.Runs.LoadTest.perf_target
    llm_router_server_dashbo.Runs.Table.create_perf_run
two_tests_at_once = refl

abbrev bench_events : List BenchEvent
bench_events =
    evaluated (submitted 10 env (request 20))
    ∷ evaluated (enqueued 1)
    ∷ test_asked 11 perf_env sweep
    ∷ evaluated (turned env)
    ∷ evaluated (start_recorded 12 1)
    ∷ evaluated (exited 20 env 1 done)
    ∷ test_asked 21 perf_env sweep
    ∷ evaluated (turned env)
    ∷ []

on_bench_events-IsExclusive_example :
    IsExclusive (on_bench_events bench_events (record { evals = idle_evals; perf = idle_perf }))
on_bench_events-IsExclusive_example =
    on_bench_events-IsExclusive bench_events (record { evals = idle_evals; perf = idle_perf })
      (free refl refl)

bench_run :
    (on_bench_events bench_events (record { evals = idle_evals; perf = idle_perf })).perf.current
    ≡ some 1
unfolding on_bench_events resolve lookup llm_router_server_dashbo.Runs.Exclusion.on_bench
    llm_router_server_dashbo.Runs.Table.create_eval_run
    llm_router_server_dashbo.Runs.LoadTest.perf_target
    llm_router_server_dashbo.Runs.Table.create_perf_run
bench_run = refl

last_segments : (last_segment "m::a" "m::a" ≡ "a") × (last_segment "a:::b" "a:::b" ≡ ":b")
unfolding last_segment
last_segments = (refl, refl)
