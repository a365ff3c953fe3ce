-- ===== src/Runs/Tracked/Recorded.antt =====
-- The row of a process that is told that it runs.
use llm_router_server_dashbo.Base.{
  ℕ, ◌≤◌, ◌≡◌, refl, sym, subst, true, ◌==◌, ==_iff, arith, Bool-cases, inl, inr,
}
use llm_router_server_dashbo.Runs.Table.{
  queued, running, flip_to_running, set_where, start_eval_run,
}
use llm_router_server_dashbo.Runs.Evals.{Evals, has, without, record_start}
use llm_router_server_dashbo.Runs.Places.{
  count, count_keys, IsSeparate, count-has, has-count, count-without_ne, count-without-le,
  apart-count, apart-count_keys,
}
use llm_router_server_dashbo.Runs.Status.{
  Says, Says-set_where_ne, set_where-Keeps, flip_to_running-id, Says-flip_to_running,
}
use llm_router_server_dashbo.Runs.Tracked.State.{IsStarted, IsTracked, Passes, stays}

-- The update of the row of a process.
recorded-IsStarted :
    (now id : ℕ) (st : Evals)
    → has id st.spawning ≡ true
    → IsTracked st
    → (k : ℕ) → 1 ≤ count k st.procs
    → IsStarted (without id st.spawning) (set_where id (flip_to_running now) st.table.rows) k
recorded-IsStarted now id st spawns h k there = elim (Bool-cases (k == id)) [
  | inl same ↦ inl (
      subst (Says running (set_where id (flip_to_running now) st.table.rows))
        (sym ((==_iff k id).0 same))
        (Says-flip_to_running now id st.table.rows
          (elim (h.runs id (h.spawned id spawns)) [ inl runs ↦ inl runs | inr (s, w) ↦ inr w ])))
  | inr other ↦ elim (h.runs k there) [
    | inl runs ↦ inl (
        Says-set_where_ne running id k (flip_to_running now) st.table.rows (flip_to_running-id now)
          other runs)
    | inr (s, waits) ↦ inr (
      has-count k (without id st.spawning)
          (omega (arith, count-without_ne k id st.spawning other, count-has k st.spawning s)),
      Says-set_where_ne queued id k (flip_to_running now) st.table.rows (flip_to_running-id now)
          other waits,
    )
  ]
]

pub record_start-Passes :
    (now id : ℕ) (st : Evals) → IsSeparate st → IsTracked st → Passes st (record_start now id st)
unfolding record_start start_eval_run
record_start-Passes now id st apart h = elim (Bool-cases (has id st.spawning)) [
  | inr absent ↦ rw (absent, record_start) (stays st h)
  | inl spawns ↦
      let rows = st.table.rows in
      let alone : (count_keys id st.inserted ≡ 0) × (count id st.waiting ≡ 0) = (
        ground (arith, apart id, h.spawned id spawns),
        ground (arith, apart id, h.spawned id spawns),
      ) in
      rw (spawns, record_start)
        (record {
          tracked = record {
            begun = λ k there.
                Says-set_where_ne queued id k (flip_to_running now) rows (flip_to_running-id now)
                  (apart-count_keys k id st.inserted there alone.0) (h.begun k there);
            waits = λ k there.
                Says-set_where_ne queued id k (flip_to_running now) rows (flip_to_running-id now)
                  (apart-count k id st.waiting there alone.1) (h.waits k there);
            runs = recorded-IsStarted now id st spawns h;
            spawned = λ k there. h.spawned k (
                has-count k st.spawning (
                  omega (
                    arith,
                    count-without-le k id st.spawning,
                    count-has k (without id st.spawning) there,
                  )));
          };
          grows = omega arith;
          keeps = elim (h.runs id (h.spawned id spawns)) [
            | inl runs ↦
                set_where-Keeps st.table.next_id id running (flip_to_running now) rows
                  (flip_to_running-id now) refl runs
            | inr (s, waits) ↦
                set_where-Keeps st.table.next_id id queued (flip_to_running now) rows
                  (flip_to_running-id now) refl waits
          ];
        })
]
