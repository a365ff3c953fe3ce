-- ===== src/Runs/Steps.antt =====
-- What happens to the manager of the evaluations, in any order: the parts of requests and of launches, turns of any of
-- its pumps, ends of processes, cancellations and deletions, and what the load tests and the settings do beside
-- it.
use llm_router_server_dashbo.Base.{
  ℕ, ◌≡◌, refl, Bool, false, ◌||◌, is_empty, Option, none, some, List, [], ◌∷◌, if◌then◌else◌,
  arith, Bool-cases, not, ◌&&◌, Option-cases, ◌⊎◌, inl, inr,
}
use llm_router_server_dashbo.Runs.Evals.{
  Env, EvalRequest, Evals, Exit, Turn, over, goes, raises, has, find, pop, resolve_request, new_run,
  queue_up, enqueue, with_process, record_start, is_full, launch, submit, turn, watch, cancel,
  set_config, delete_run,
}
use llm_router_server_dashbo.Runs.Table.{queued, NewRun, create_eval_run}
use Prim.Native.String as String

pub data Event : Type 0 where
  submitted : ℕ → Env → EvalRequest → Event
  enqueued : ℕ → Event
  turned : Env → Event
  start_recorded : ℕ → ℕ → Event
  exited : ℕ → Env → ℕ → Exit → Event
  cancel_asked : ℕ → ℕ → Event
  deleted : ℕ → Event
  configured : ℕ → Event
  load_test : Bool → Event

abbrev pub or_same : Option Evals → Evals → Evals
or_same none st = st
or_same (some next) st = next

abbrev pub after_turn : Turn → Evals → Evals
after_turn over st = st
after_turn (goes next) st = next
after_turn (raises next) st = next

-- A process that is watched: the watcher comes after the row.
abbrev pub is_watched : ℕ → Evals → Bool
is_watched id st = has id st.procs && not (has id st.spawning)

-- A process ends once, and only one that is watched.
unfoldable pub on_event : Event → Evals → Evals
unfolding submit enqueue turn record_start watch cancel
on_event (submitted now env req) st = or_same (submit now env req st) st
on_event (enqueued id) st = enqueue id st
on_event (turned env) st = after_turn (turn env st.waiting st) st
on_event (start_recorded now id) st = record_start now id st
on_event (exited now env id exit) st = if is_watched id st then watch now env id exit st else st
on_event (cancel_asked now id) st = (cancel now id st).1
on_event (deleted id) st = delete_run id st
on_event (configured budget) st = set_config budget st
on_event (load_test is_on) st = record st { perf_busy = is_on }

unfoldable pub on_events : List Event → Evals → Evals
on_events [] st = st
on_events (e ∷ es) st = on_events es (on_event e st)

-- A launch passes over an id that nothing is pending for, raises, or has a process.
pub launch-cases :
    (env : Env) (id : ℕ) (st : Evals)
    → (launch env id st ≡ goes st)
      ⊎ ((launch env id st ≡ raises (record st { pending = pop id st.pending }))
          ⊎ (launch env id st ≡ goes (with_process id (record st { pending = pop id st.pending }))))
unfolding launch
launch-cases env id st = elim (Option-cases (find id st.pending)) [
  | inl absent ↦ inl (rw (absent, launch) refl)
  | inr (req, found) ↦ elim (Option-cases (resolve_request env req)) [
    | inl unknown ↦ inr (inl (rw (found, launch) (rw unknown refl)))
    | inr (target, known) ↦ inr (inr (rw (found, launch) (rw known refl)))
  ]
]

abbrev pub with_row : NewRun → EvalRequest → ℕ → Evals → Evals
with_row run req now st = record st {
  inserted = (st.table.next_id, req) ∷ st.inserted;
  table = (create_eval_run now queued run st.table).1;
}

-- A request is refused, or it has the newest row.
pub submit-cases :
    (now : ℕ) (env : Env) (req : EvalRequest) (st : Evals)
    → (submit now env req st ≡ none)
      ⊎ ((run : NewRun) × (submit now env req st ≡ some (with_row run req now st)))
unfolding submit create_eval_run
submit-cases now env req st = elim (Bool-cases (is_empty req.datasets)) [
  | inl empty ↦ inl (rw empty refl)
  | inr some_set ↦ elim (Option-cases (resolve_request env req)) [
    | inl unknown ↦ inl (rw some_set (rw unknown refl))
    | inr ((field, base, tag), known) ↦
        inr (new_run env req (String.◌++◌ base "/v1"), rw some_set (rw known refl))
  ]
]

-- An id joins the queue with the request that its row was made for.
pub enqueue-cases :
    (id : ℕ) (st : Evals)
    → (enqueue id st ≡ st)
      ⊎ ((req : EvalRequest) × (find id st.inserted ≡ some req)
          × (enqueue id st ≡ queue_up id req st))
unfolding enqueue
enqueue-cases id st = elim (Option-cases (find id st.inserted)) [
  | inl absent ↦ inl (rw (absent, enqueue) refl)
  | inr (req, found) ↦ inr (req, found, rw (found, enqueue) refl)
]

-- A turn ends the loop, or it launches the head of the queue, which fits.
pub turn-cases :
    (env : Env) (id : ℕ) (rest : List ℕ) (st : Evals)
    → (turn env (id ∷ rest) st ≡ over)
      ⊎ ((is_full id st ≡ false)
          × (turn env (id ∷ rest) st ≡ launch env id (record st { waiting = rest })))
unfolding turn
turn-cases env id rest st = elim (Bool-cases (st.perf_busy || is_full id st)) [
  | inl waits ↦ inl (rw (waits, turn) refl)
  | inr fits ↦ inr (ground (arith, fits), rw (fits, turn) refl)
]
