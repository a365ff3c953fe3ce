-- ===== src/Runs/Exclusion.antt =====
-- The evaluations and the load tests beside each other: apps/backend/app/api/perf.py refuses a load test while an
-- evaluation runs or waits, and a pump admits none while a load test runs.
use llm_router_server_dashbo.Base.{
  ℕ, String, ◌≡◌, refl, sym, ap, ◌∙◌, subst, true, false, not, Option, none, some, is_some, List,
  [], ◌∷◌, ◌||◌, ◌==◌, is_empty, if◌then◌else◌, if-intro, arith, Bool-cases, Option-cases, ◌⊎◌, inl,
  inr,
}
use llm_router_server_dashbo.Runs.Table.{Ending, create_perf_run}
use llm_router_server_dashbo.Runs.Evals.{
  Env, EvalRequest, Evals, Exit, over, has, without, busy, is_full, submit, launch, turn, watch,
  cancel, enqueue, record_start,
}
use llm_router_server_dashbo.Runs.Steps.{
  Event, submitted, enqueued, turned, start_recorded, exited, cancel_asked, deleted, configured,
  load_test, or_same, after_turn, is_watched, on_event, submit-cases, enqueue-cases,
}
use llm_router_server_dashbo.Runs.LoadTest.{
  Perf, PerfEnv, PerfRequest, perf_is_busy, perf_target, perf_run, begin_test, spawn_test,
  start_test, vacated, watch_test, cancel_test,
}

-- Both managers of a backend.
pub record Bench : Type 0 where
  pub evals : Evals
  pub perf : Perf

-- A start of a load test is one step here: no other request comes while it waits for the store.
pub data BenchEvent : Type 0 where
  evaluated : Event → BenchEvent
  test_asked : ℕ → PerfEnv → PerfRequest → BenchEvent
  test_exited : ℕ → String → Ending → ℕ → BenchEvent
  test_cancelled : ℕ → BenchEvent

abbrev pub started_or : Option Perf → Perf → Perf
started_or none st = st
started_or (some next) st = next

-- The pumps read `busy` of the other manager as it is then.
unfoldable pub on_bench : BenchEvent → Bench → Bench
unfolding on_event start_test watch_test cancel_test
on_bench (evaluated e) b = record b {
  evals = on_event e (record b.evals { perf_busy = perf_is_busy b.perf });
}
on_bench (test_asked now env req) b =
    if busy b.evals
    then b
    else record b { perf = started_or (start_test now env req b.perf) b.perf }
on_bench (test_exited now dir outcome id) b =
    if has id b.perf.procs then record b { perf = watch_test now dir outcome id b.perf } else b
on_bench (test_cancelled id) b = record b { perf = (cancel_test id b.perf).1 }

unfoldable pub on_bench_events : List BenchEvent → Bench → Bench
on_bench_events [] b = b
on_bench_events (e ∷ es) b = on_bench_events es (on_bench e b)

pub submit-procs :
    (now : ℕ) (env : Env) (req : EvalRequest) (st : Evals)
    → (or_same (submit now env req st) st).procs ≡ st.procs
submit-procs now env req st = elim (submit-cases now env req st) [
  | inl refused ↦ ap (λ r. (or_same r st).procs) refused
  | inr (new, accepted) ↦ ap (λ r. (or_same r st).procs) accepted
]

turn-of_load_test :
    (env : Env) (ids : List ℕ) (st : Evals) → st.perf_busy ≡ true → turn env ids st ≡ over
unfolding turn
turn-of_load_test env [] st e = refl
turn-of_load_test env (id ∷ rest) st e =
    ap (λ b. if b || is_full id st then over else launch env id (record st { waiting = rest })) e

pub watch-procs :
    (now : ℕ) (env : Env) (id : ℕ) (exit : Exit) (st : Evals)
    → (watch now env id exit st).procs ≡ without id st.procs
unfolding watch
watch-procs now env id exit st = elim (Bool-cases (has id st.cancelled_ids)) [
  | inl asked ↦ rw (asked, watch) refl
  | inr ran ↦ rw (ran, watch) refl
]

pub cancel-procs : (now id : ℕ) (st : Evals) → (cancel now id st).1.procs ≡ st.procs
unfolding cancel
cancel-procs now id st = elim (Bool-cases (has id st.waiting)) [
  | inl waits ↦ rw (waits, cancel) refl
  | inr gone ↦ elim (Bool-cases (has id st.procs)) [
    | inl runs ↦ rw (gone, cancel) (rw runs refl)
    | inr unknown ↦ rw (gone, cancel) (rw unknown refl)
  ]
]

pub record_start-procs : (now id : ℕ) (st : Evals) → (record_start now id st).procs ≡ st.procs
unfolding record_start
record_start-procs now id st = elim (Bool-cases (has id st.spawning)) [
  | inl spawned ↦ rw (spawned, record_start) refl
  | inr absent ↦ rw (absent, record_start) refl
]

enqueue-procs : (id : ℕ) (st : Evals) → (enqueue id st).procs ≡ st.procs
enqueue-procs id st = elim (enqueue-cases id st) [
  | inl absent ↦ ap (λ s. s.procs) absent
  | inr (req, found, joins) ↦ ap (λ s. s.procs) joins
]

-- No evaluation starts beside a load test.
on_event-idle :
    (e : Event) (st : Evals) → st.perf_busy ≡ true → st.procs ≡ [] → (on_event e st).procs ≡ []
unfolding on_event
on_event-idle (submitted now env req) st measuring idle = submit-procs now env req st ∙ idle
on_event-idle (enqueued id) st measuring idle = enqueue-procs id st ∙ idle
on_event-idle (start_recorded now id) st measuring idle = record_start-procs now id st ∙ idle
on_event-idle (deleted id) st measuring idle = idle
on_event-idle (turned env) st measuring idle =
    ap (λ r. (after_turn r st).procs) (turn-of_load_test env st.waiting st measuring) ∙ idle
on_event-idle (exited now env id exit) st measuring idle =
    if-intro (λ s. s.procs ≡ []) (is_watched id st) (watch now env id exit st) st
      (λ found. watch-procs now env id exit st ∙ ap (without id) idle) (λ gone. idle)
on_event-idle (cancel_asked now id) st measuring idle = cancel-procs now id st ∙ idle
on_event-idle (configured budget) st measuring idle = idle
on_event-idle (load_test is_on) st measuring idle = idle

-- No load test and none of its processes, or one of each and no evaluation.
pub data IsExclusive (b : Bench) : Type 0 where
  free : b.perf.current ≡ none → b.perf.procs ≡ [] → IsExclusive b
  measuring :
      (id : ℕ)
      → b.perf.current ≡ some id
      → b.perf.procs ≡ id ∷ []
      → b.evals.procs ≡ []
      → IsExclusive b

procs-of_not_busy :
    (procs waiting : List ℕ) → (not (is_empty procs) || not (is_empty waiting)) ≡ false → procs ≡ []
procs-of_not_busy [] waiting h = refl
procs-of_not_busy (p ∷ procs) waiting h = cc

evaluated-IsExclusive :
    (e : Event) (b : Bench) → IsExclusive b → IsExclusive (on_bench (evaluated e) b)
unfolding on_bench
evaluated-IsExclusive e b (free none_set no_procs) = free none_set no_procs
evaluated-IsExclusive e b (measuring id set one idle) = measuring id set one (
    on_event-idle e (record b.evals { perf_busy = perf_is_busy b.perf }) (ap (λ c. is_some c) set)
      idle)

start_test-cases :
    (now : ℕ) (env : PerfEnv) (req : PerfRequest) (st : Perf)
    → (start_test now env req st ≡ none)
      ⊎ ((st.current ≡ none)
          × (id : ℕ) × (next : Perf) × (next.procs ≡ st.procs)
          × (start_test now env req st ≡ some (spawn_test id next)))
unfolding start_test begin_test create_perf_run
start_test-cases now env req st = elim (Option-cases st.current) [
  | inr (id, set) ↦ inl (rw (set, start_test) refl)
  | inl none_set ↦ elim (Option-cases (perf_target env req)) [
    | inl unknown ↦ inl (rw (none_set, start_test) (rw unknown refl))
    | inr ((field, url, tokenizer), known) ↦ inr (
      none_set,
      st.table.next_id,
      record st { table = (create_perf_run now (perf_run env req url) st.table).1 },
      refl,
      rw (none_set, start_test) (rw known refl),
    )
  ]
]

watch_test-parts :
    (now : ℕ) (dir : String) (outcome : Ending) (id : ℕ) (st : Perf)
    → ((watch_test now dir outcome id st).procs ≡ without id st.procs)
      × ((watch_test now dir outcome id st).current ≡ vacated id st.current)
unfolding watch_test
watch_test-parts now dir outcome id st = elim (Bool-cases (has id st.cancelled_ids)) [
  | inl asked ↦ rw (asked, watch_test) (refl, refl)
  | inr ran ↦ rw (ran, watch_test) (refl, refl)
]

test_asked-IsExclusive :
    (now : ℕ) (env : PerfEnv) (req : PerfRequest) (b : Bench)
    → IsExclusive b
    → IsExclusive (on_bench (test_asked now env req) b)
unfolding on_bench spawn_test
test_asked-IsExclusive now env req b h = elim (Bool-cases (busy b.evals)) [
  | inl evaluating ↦ rw (evaluating, on_bench) h
  | inr idle ↦
      rw (idle, on_bench)
        (elim (start_test-cases now env req b.perf) [
          | inl refused ↦
              subst (λ r. IsExclusive (record b { perf = started_or r b.perf })) (sym refused)
                (same b h)
          | inr (none_set, id, next, procs, accepted) ↦
              subst (λ r. IsExclusive (record b { perf = started_or r b.perf })) (sym accepted)
                (measuring id refl (ap (λ ps. id ∷ ps) (procs ∙ no_procs b h none_set))
                  (procs-of_not_busy b.evals.procs b.evals.waiting idle))
        ])
]
  where
    same : (c : Bench) → IsExclusive c → IsExclusive (record c { perf = c.perf })
    same c (free none_set none_left) = free none_set none_left
    same c (measuring id set one idle) = measuring id set one idle

    no_procs : (c : Bench) → IsExclusive c → c.perf.current ≡ none → c.perf.procs ≡ []
    no_procs c (free none_set none_left) e = none_left
    no_procs c (measuring id set one idle) e = cc

test_exited-IsExclusive :
    (now : ℕ) (dir : String) (outcome : Ending) (id : ℕ) (b : Bench)
    → IsExclusive b
    → IsExclusive (on_bench (test_exited now dir outcome id) b)
unfolding on_bench
test_exited-IsExclusive now dir outcome id b (free none_set none_left) =
    let absent : has id b.perf.procs ≡ false = rw none_left refl in
    rw (absent, on_bench) (free none_set none_left)
test_exited-IsExclusive now dir outcome id b (measuring i set one idle) =
    elim (Bool-cases (has id b.perf.procs)) [
      | inr absent ↦ rw (absent, on_bench) (measuring i set one idle)
      | inl found ↦
          let (procs, current) = watch_test-parts now dir outcome id b.perf in
          let alone : has id (i ∷ []) ≡ true = rw one at found in
          let same : (i == id) ≡ true = ground (arith, alone) in
          rw (found, on_bench)
            (free (current ∙ ap (vacated id) set ∙ (rw same refl))
              (procs ∙ ap (without id) one ∙ (rw same refl)))
    ]

cancel_test-parts :
    (id : ℕ) (st : Perf)
    → ((cancel_test id st).1.current ≡ st.current) × ((cancel_test id st).1.procs ≡ st.procs)
unfolding cancel_test
cancel_test-parts id st = elim (Bool-cases (has id st.procs)) [
  | inl runs ↦ rw (runs, cancel_test) (refl, refl)
  | inr unknown ↦ rw (unknown, cancel_test) (refl, refl)
]

on_bench-IsExclusive : (e : BenchEvent) (b : Bench) → IsExclusive b → IsExclusive (on_bench e b)
unfolding on_bench cancel_test
on_bench-IsExclusive (evaluated e) b h = evaluated-IsExclusive e b h
on_bench-IsExclusive (test_asked now env req) b h = test_asked-IsExclusive now env req b h
on_bench-IsExclusive (test_exited now dir outcome id) b h =
    test_exited-IsExclusive now dir outcome id b h
on_bench-IsExclusive (test_cancelled id) b (free none_set none_left) =
    let (current, procs) = cancel_test-parts id b.perf in
    free (current ∙ none_set) (procs ∙ none_left)
on_bench-IsExclusive (test_cancelled id) b (measuring i set one idle) =
    let (current, procs) = cancel_test-parts id b.perf in
    measuring i (current ∙ set) (procs ∙ one) idle

-- A load test has the machine for itself: while one is the current one its process is the only one, and no
-- evaluation has a process, whatever is asked, cancelled or ends in between. This takes each start of a load
-- test as one step, which holds while no second request comes between its check and its process.
pub on_bench_events-IsExclusive :
    (es : List BenchEvent) (b : Bench) → IsExclusive b → IsExclusive (on_bench_events es b)
unfolding on_bench_events
on_bench_events-IsExclusive [] b h = h
on_bench_events-IsExclusive (e ∷ es) b h =
    on_bench_events-IsExclusive es (on_bench e b) (on_bench-IsExclusive e b h)
