-- ===== src/Runs/Tracked.antt =====
-- The store keeps up with what the manager of the evaluations does.
pub mod State
mod Begins
mod Recorded
mod Ends
use llm_router_server_dashbo.Base.{
  ℕ, suc, ◌+◌, ◌≤◌, ◌<◌, ◌≡◌, refl, sym, ap, ◌∙◌, subst, Bool, true, false, not, ◌&&◌, List, [],
  ◌∷◌, ◌++◌, ◌==◌, ==_iff, if◌then◌else◌, if-intro, arith, Bool-cases, ◌⊎◌, inl, inr, Option, none,
  some,
}
use llm_router_server_dashbo.Runs.Table.{
  RunStatus, queued, running, cancelled, RunRow, flip_to_running, set_where, Ending, ended, NewRun,
  new_row, create_eval_run, delete_eval_run, start_eval_run, finish_eval_run,
}
use llm_router_server_dashbo.Runs.Evals.{
  Env, EvalRequest, Evals, Exit, has, without, find, pop, queue_up, with_process, failure,
  ending_of, submit, enqueue, record_start, turn, watch, cancel, delete_run,
}
use llm_router_server_dashbo.Runs.Steps.{
  Event, submitted, enqueued, turned, start_recorded, exited, cancel_asked, deleted, configured,
  load_test, or_same, after_turn, is_watched, with_row, on_event, on_events, launch-cases,
  submit-cases, enqueue-cases, turn-cases,
}
use llm_router_server_dashbo.Runs.Places.{
  count, count_keys, IsSeparate, on_event-IsSeparate, count-append, count-has, has-count,
  count-without, count-without_ne, count-without-le, count_keys-find, count_keys-pop-le,
  apart-count, apart-count_keys,
}
use llm_router_server_dashbo.Runs.Status.{
  Says, Keeps, is_ended, Says-set_where_ne, Says-delete, set_where-Keeps, flip_to_running-id,
  Says-flip_to_running, Says-new_ne,
}
use State.{IsTracked, Passes, stays}
use Begins.{submit-Passes, enqueue-Passes, turn-Passes}
use Recorded.{record_start-Passes}
use Ends.{watch-Passes, cancel-Passes}

delete_run-Passes : (id : ℕ) (st : Evals) → IsTracked st → Passes st (delete_run id st)
unfolding delete_eval_run
delete_run-Passes id st h = record {
  tracked = record {
    begun = λ k there. Says-delete queued id k st.table.rows (h.begun k there);
    waits = λ k there. Says-delete queued id k st.table.rows (h.waits k there);
    runs = λ k there. elim (h.runs k there) [
      | inl runs ↦ inl (Says-delete running id k st.table.rows runs)
      | inr (spawns, waits) ↦ inr (spawns, Says-delete queued id k st.table.rows waits)
    ];
    spawned = h.spawned;
  };
  grows = omega arith;
  keeps = λ k t lt over there. Says-delete t id k st.table.rows there;
}

beside-Passes :
    (budget : ℕ) (is_on : Bool) (st : Evals)
    → IsTracked st
    → Passes st (record st { concurrency_budget = budget; perf_busy = is_on })
beside-Passes budget is_on st h = record {
  tracked = record { begun = h.begun; waits = h.waits; runs = h.runs; spawned = h.spawned };
  grows = omega arith;
  keeps = λ k t lt over there. there;
}

on_event-Passes :
    (e : Event) (st : Evals) → IsSeparate st → IsTracked st → Passes st (on_event e st)
unfolding on_event
on_event-Passes (submitted now env req) st apart h = submit-Passes now env req st apart h
on_event-Passes (enqueued id) st apart h = enqueue-Passes id st h
on_event-Passes (turned env) st apart h = turn-Passes env st.waiting st refl h
on_event-Passes (start_recorded now id) st apart h = record_start-Passes now id st apart h
on_event-Passes (exited now env id exit) st apart h = elim (Bool-cases (is_watched id st)) [
  | inl watched ↦ rw watched (watch-Passes now env id exit st watched apart h)
  | inr unwatched ↦ rw unwatched (stays st h)
]
on_event-Passes (cancel_asked now id) st apart h = cancel-Passes now id st apart h
on_event-Passes (deleted id) st apart h = delete_run-Passes id st h
on_event-Passes (configured budget) st apart h = beside-Passes budget st.perf_busy st h
on_event-Passes (load_test is_on) st apart h = beside-Passes st.concurrency_budget is_on st h

-- The store keeps up with the manager, also between the parts of a request and of a launch. In any interleaving
-- of requests, turns, ends, cancellations and deletions: the row of everything that waits, or is about to, is
-- `queued` or was deleted; the row of a process is `running` or was deleted, and `queued` only until the update
-- that follows the launch. And what has ended stays: a run whose row says that it completed, failed or was
-- cancelled says so ever after, unless its row is deleted, and a row that is deleted does not come back.
pub on_events-IsTracked :
    (es : List Event) (st : Evals)
    → IsSeparate st
    → IsTracked st
    → IsTracked (on_events es st)
      × Keeps st.table.next_id st.table.rows (on_events es st).table.rows
unfolding on_events
on_events-IsTracked [] st apart h = (h, λ k t lt over there. there)
on_events-IsTracked (e ∷ es) st apart h =
    let first = on_event-Passes e st apart h in
    let (last, kept) =
      on_events-IsTracked es (on_event e st) (on_event-IsSeparate e st apart) first.tracked in
    (
      last,
      λ k t lt over there.
          kept k t (omega (arith, lt, first.grows)) over (first.keeps k t lt over there),
    )
