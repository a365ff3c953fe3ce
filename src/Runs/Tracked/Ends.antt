-- ===== src/Runs/Tracked/Ends.antt =====
-- The rows of runs that end.
use llm_router_server_dashbo.Base.{
  ℕ, ◌≤◌, ◌≡◌, refl, subst, true, false, List, ◌==◌, ==_iff, arith, Bool-cases, inl, inr, none,
}
use llm_router_server_dashbo.Runs.Table.{
  queued, running, cancelled, set_where, Ending, ended, finish_eval_run,
}
use llm_router_server_dashbo.Runs.Evals.{
  Env, Evals, Exit, has, without, pop, failure, ending_of, watch, cancel,
}
use llm_router_server_dashbo.Runs.Steps.{is_watched}
use llm_router_server_dashbo.Runs.Places.{
  count, count_keys, IsSeparate, count-has, count-without, count-without_ne, count-without-le,
  apart-count, apart-count_keys,
}
use llm_router_server_dashbo.Runs.Status.{Says, Keeps, Says-set_where_ne, set_where-Keeps}
use llm_router_server_dashbo.Runs.Tracked.State.{IsStarted, IsTracked, Passes, stays}

Started-set_where_ne :
    (now id k : ℕ) (e : Ending) (st : Evals)
    → (k == id) ≡ false
    → IsStarted st.spawning st.table.rows k
    → IsStarted st.spawning (set_where id (ended now e) st.table.rows) k
Started-set_where_ne now id k e st other (inl runs) =
    inl (Says-set_where_ne running id k (ended now e) st.table.rows (λ r. refl) other runs)
Started-set_where_ne now id k e st other (inr (spawns, waits)) =
    inr (spawns, Says-set_where_ne queued id k (ended now e) st.table.rows (λ r. refl) other waits)

-- A run that waits or runs ends, and it is in neither list any more.
ended-IsTracked :
    (now id : ℕ) (e : Ending) (st : Evals) (procs waiting : List ℕ)
    → IsTracked st
    → ((k : ℕ) → count k procs ≤ count k st.procs)
    → ((k : ℕ) → count k waiting ≤ count k st.waiting)
    → (count_keys id st.inserted ≡ 0) × (count id waiting ≡ 0) × (count id procs ≡ 0)
    → let rows = set_where id (ended now e) st.table.rows in
      ((k : ℕ) → 1 ≤ count_keys k st.inserted → Says queued rows k)
      × ((k : ℕ) → 1 ≤ count k waiting → Says queued rows k)
      × ((k : ℕ) → 1 ≤ count k procs → IsStarted st.spawning rows k)
ended-IsTracked now id e st procs waiting h fewer shorter (no_row, no_wait, no_proc) = (
  λ k there.
      Says-set_where_ne queued id k (ended now e) st.table.rows (λ r. refl)
        (apart-count_keys k id st.inserted there no_row) (h.begun k there),
  λ k there.
      Says-set_where_ne queued id k (ended now e) st.table.rows (λ r. refl)
        (apart-count k id waiting there no_wait) (h.waits k (omega (arith, shorter k, there))),
  λ k there.
      Started-set_where_ne now id k e st (apart-count k id procs there no_proc)
        (h.runs k (omega (arith, fewer k, there))),
)

-- The end of a process that was watched.
watched-Passes :
    (now : ℕ) (id : ℕ) (e : Ending) (cancelled_ids : List ℕ) (batch : List (ℕ × ℕ)) (st : Evals)
    → has id st.procs ≡ true
    → has id st.spawning ≡ false
    → IsSeparate st
    → IsTracked st
    → Passes st (record st {
      procs = without id st.procs;
      batch = batch;
      cancelled_ids = cancelled_ids;
      table = finish_eval_run now id e st.table;
    })
unfolding finish_eval_run
watched-Passes now id e cancelled_ids batch st found recorded apart h =
    let there = count-has id st.procs found in
    let (begun, waits, runs) =
      ended-IsTracked now id e st (without id st.procs) st.waiting h
        (λ k. count-without-le k id st.procs) (λ k. omega arith)
        (
          ground (arith, apart id, there),
          ground (arith, apart id, there),
          count-without id st.procs,
        ) in
    record {
      tracked = record { begun = begun; waits = waits; runs = runs; spawned = left };
      grows = omega arith;
      keeps = elim (h.runs id there) [
        | inl says ↦
            set_where-Keeps st.table.next_id id running (ended now e) st.table.rows (λ r. refl) refl
              says
        | inr (spawns, says) ↦ absurd_of spawns
      ];
    }
  where
    left : (k : ℕ) → has k st.spawning ≡ true → 1 ≤ count k (without id st.procs)
    left k spawns = elim (Bool-cases (k == id)) [
      | inl same ↦
          let no : has id st.spawning ≡ true =
            subst (λ j. has j st.spawning ≡ true) ((==_iff k id).0 same) spawns in
          cc
      | inr other ↦ omega (arith, count-without_ne k id st.procs other, h.spawned k spawns)
    ]

    absurd_of :
        has id st.spawning ≡ true
        → Keeps st.table.next_id st.table.rows (set_where id (ended now e) st.table.rows)
    absurd_of spawns = cc

pub watch-Passes :
    (now : ℕ) (env : Env) (id : ℕ) (exit : Exit) (st : Evals)
    → is_watched id st ≡ true
    → IsSeparate st
    → IsTracked st
    → Passes st (watch now env id exit st)
unfolding watch
watch-Passes now env id exit st watched apart h =
    let found : has id st.procs ≡ true = ground (arith, watched) in
    let recorded : has id st.spawning ≡ false = ground (arith, watched) in
    elim (Bool-cases (has id st.cancelled_ids)) [
      | inl asked ↦
          rw (asked, watch)
            (watched-Passes now id (record (failure (env.run_dir id)) { status = cancelled })
              (without id st.cancelled_ids) (pop id st.batch) st found recorded apart h)
      | inr ran ↦
          rw (ran, watch)
            (watched-Passes now id (ending_of (env.run_dir id) exit) st.cancelled_ids
              (pop id st.batch) st found recorded apart h)
    ]

pub cancel-Passes :
    (now id : ℕ) (st : Evals) → IsSeparate st → IsTracked st → Passes st (cancel now id st).1
unfolding cancel finish_eval_run
cancel-Passes now id st apart h = elim (Bool-cases (has id st.waiting)) [
  | inl stands ↦
      let there = count-has id st.waiting stands in
      let e : Ending = record {
        status = cancelled;
        result = none;
        output_dir = none;
        error = none;
      } in
      let (begun, waits, runs) =
        ended-IsTracked now id e st st.procs (without id st.waiting) h (λ k. omega arith)
          (λ k. count-without-le k id st.waiting)
          (
            ground (arith, apart id, there),
            count-without id st.waiting,
            ground (arith, apart id, there),
          ) in
      rw (stands, cancel)
        (record {
          tracked = record { begun = begun; waits = waits; runs = runs; spawned = h.spawned };
          grows = omega arith;
          keeps =
              set_where-Keeps st.table.next_id id queued (ended now e) st.table.rows (λ r. refl)
                refl (h.waits id there);
        })
  | inr gone ↦ elim (Bool-cases (has id st.procs)) [
    | inl has_process ↦
        rw (gone, cancel)
          (rw has_process (record {
            tracked = record {
              begun = h.begun;
              waits = h.waits;
              runs = h.runs;
              spawned = h.spawned;
            };
            grows = omega arith;
            keeps = λ k t lt over there. there;
          }))
    | inr unknown ↦ rw (gone, cancel) (rw unknown (stays st h))
  ]
]
