-- ===== src/Runs/Evals.antt =====
-- EvalManager of apps/backend/app/eval/manager.py: the queue of the evaluations, their budget and their ends. An
-- operation is cut where it waits and others can come between: `start` at the insert of its row, a launch between
-- the process and its row, and the loop of `_pump` at each turn, so that all of them interleave.
use llm_router_server_dashbo.Base.{
  ℕ, suc, zero, ◌+◌, String, Bool, true, false, not, Option, none, some, List, [], ◌∷◌, ◌++◌, any,
  filter, or_default, is_empty, ltb, length, ◌==◌, ◌&&◌, ◌||◌, if◌then◌else◌,
}
use llm_router_server_dashbo.Runs.Table.{
  queued, completed, failed, cancelled, NewRun, RunTable, Ending, create_eval_run, delete_eval_run,
  start_eval_run, finish_eval_run,
}
use llm_router_server_dashbo.Runs.Target.{Engines, resolve}
use Prim.Native.String as String

pub record EvalRequest : Type 0 where
  pub model : String
  pub target : Option String
  pub instance_key : Option String
  pub datasets : List String
  pub name : Option String
  pub eval_batch_size : Option ℕ

-- The settings, the texts of Python's values, and the models as they are configured.
pub record Env : Type 0 where
  pub router_url : String
  pub run_dir : ℕ → String
  pub text : ℕ → String
  pub dumps_list : List String → String
  pub dumps : EvalRequest → String
  pub engines : Engines

pub record Evals : Type 0 where
  pub concurrency_budget : ℕ
  -- perf_manager.busy
  pub perf_busy : Bool
  -- The ids that have a process.
  pub procs : List ℕ
  -- Those of them whose row does not say so yet: the update is awaited.
  pub spawning : List ℕ
  -- The requests whose row is there and that are not in the queue yet: the insert is awaited.
  pub inserted : List (ℕ × EvalRequest)
  pub waiting : List ℕ
  pub pending : List (ℕ × EvalRequest)
  pub batch : List (ℕ × ℕ)
  pub cancelled_ids : List ℕ
  pub table : RunTable

abbrev pub has : ℕ → List ℕ → Bool
has id ids = any (λ i. i == id) ids

-- ids.remove(id), and what a dictionary is without a key
abbrev pub without : ℕ → List ℕ → List ℕ
without id ids = filter (λ i. not (i == id)) ids

unfoldable pub find {ℓ} : {V : Type ℓ} → ℕ → List (ℕ × V) → Option V
find id [] = none
find id ((i, v) ∷ rest) = if i == id then some v else find id rest

unfoldable pub pop {ℓ} : {V : Type ℓ} → ℕ → List (ℕ × V) → List (ℕ × V)
pop id [] = []
pop id ((i, v) ∷ rest) = let left = pop id rest in if i == id then left else (i, v) ∷ left

-- self._batch.get(rid, 0) over the running ids
unfoldable pub used_by : List (ℕ × ℕ) → List ℕ → ℕ
unfolding find
used_by batch [] = 0
used_by batch (id ∷ ids) = or_default (find id batch) 0 + used_by batch ids

unfoldable pub used_budget : Evals → ℕ
unfolding used_by
used_budget st = used_by st.batch st.procs

abbrev pub busy : Evals → Bool
busy st = not (is_empty st.procs) || not (is_empty st.waiting)

abbrev pub resolve_request : Env → EvalRequest → Option (String × String × String)
resolve_request env req =
    resolve env.text env.router_url env.engines req.model (or_default req.target "router")
      req.instance_key

abbrev pub new_run : Env → EvalRequest → String → NewRun
new_run env req api_url = record {
  model = req.model;
  target_url = api_url;
  datasets = some (env.dumps_list req.datasets);
  params = env.dumps req;
  name = req.name;
}

-- `start` up to the row that it makes; `none` is an EvalError.
unfoldable pub submit : ℕ → Env → EvalRequest → Evals → Option Evals
submit now env req st = if is_empty req.datasets then none else elim (resolve_request env req) [
  | none ↦ none
  | some (model_field, base, tag) ↦
      let (id, table) =
        create_eval_run now queued (new_run env req (String.◌++◌ base "/v1")) st.table in
      some (record st { inserted = (id, req) ∷ st.inserted; table = table })
]

abbrev pub queue_up : ℕ → EvalRequest → Evals → Evals
queue_up id req st = record st {
  inserted = pop id st.inserted;
  pending = (id, req) ∷ st.pending;
  batch = (id, or_default req.eval_batch_size 8) ∷ st.batch;
  waiting = st.waiting ++ id ∷ [];
}

-- `start` from the id of its row up to its pump.
unfoldable pub enqueue : ℕ → Evals → Evals
unfolding find pop
enqueue id st = elim (find id st.inserted) [ none ↦ st | some req ↦ queue_up id req st ]

-- How a turn of the loop ends: the loop is over, it goes on, or the launch raises.
pub data Turn : Type 0 where
  over : Turn
  goes : Evals → Turn
  raises : Evals → Turn

-- self._procs[run_id] = proc
abbrev pub with_process : ℕ → Evals → Evals
with_process id st = record st { procs = id ∷ st.procs; spawning = id ∷ st.spawning }

-- `_launch` up to the process.
unfoldable pub launch : Env → ℕ → Evals → Turn
unfolding find pop
launch env id st = elim (find id st.pending) [
  | none ↦ goes st
  | some req ↦
      let taken = record st { pending = pop id st.pending } in
      elim (resolve_request env req) [
        | none ↦ raises taken
        | some target ↦ goes (with_process id taken)
      ]
]

-- The rest of `_launch`, where there is a process: its row, and then its watcher.
unfoldable pub record_start : ℕ → ℕ → Evals → Evals
record_start now id st =
    if has id st.spawning
    then record st { spawning = without id st.spawning; table = start_eval_run now id st.table }
    else st

-- The head does not fit beside what runs.
abbrev pub is_full : ℕ → Evals → Bool
is_full id st =
    not (is_empty st.procs)
    && ltb st.concurrency_budget (used_budget st + or_default (find id st.batch) 8)

-- A turn of the loop of `_pump`, for a queue, up to the process.
unfoldable pub turn : Env → List ℕ → Evals → Turn
unfolding launch
turn env [] st = over
turn env (id ∷ rest) st =
    if st.perf_busy || is_full id st then over else launch env id (record st { waiting = rest })

abbrev pub record_head : ℕ → List ℕ → Evals → Evals
record_head now [] st = st
record_head now (id ∷ rest) st = record_start now id st

-- The loop, on fuel, when nothing comes between; `none` means that the fuel ran out. Whether it raised comes with
-- the state.
unfoldable pub pump_loop : ℕ → ℕ → Env → Evals → Option (Bool × Evals)
unfolding turn record_start
pump_loop zero now env st = none
pump_loop (suc fuel) now env st = elim (turn env st.waiting st) [
  | over ↦ some (false, st)
  | goes next ↦ pump_loop fuel now env (record_head now st.waiting next)
  | raises next ↦ some (true, next)
]

unfoldable pub pump : ℕ → Env → Evals → Option (Bool × Evals)
unfolding pump_loop
pump now env st = pump_loop (suc (length st.waiting)) now env st

-- What `_watch` finds when the process is gone: the result file is not there, cannot be read, or has this text.
pub data ResultFile : Type 0 where
  missing : ResultFile
  unreadable : String → ResultFile
  parsed : String → ResultFile

pub record Exit : Type 0 where
  -- The exit status: whether it is zero, and its text.
  pub is_zero : Bool
  pub rc : String
  pub file : ResultFile
  -- _extract_error
  pub detail : Option String

abbrev pub failure : String → Ending
failure dir = record { status = failed; result = none; output_dir = some dir; error = none }

-- msg = f"runner exited rc={rc}" + (f": {detail}" if detail else "; see run.log")
abbrev pub exit_message : Exit → String
exit_message exit = String.◌++◌ "runner exited rc=" (
    String.◌++◌ exit.rc (elim exit.detail [ none ↦ "; see run.log" | some d ↦ String.◌++◌ ": " d ]))

abbrev pub ending_of_file : String → Exit → ResultFile → Ending
ending_of_file dir exit missing = record (failure dir) { error = some (exit_message exit) }
ending_of_file dir exit (unreadable e) = record (failure dir) {
  error = some (String.◌++◌ "result parse error: " e);
}
ending_of_file dir exit (parsed text) = record (failure dir) {
  status = completed;
  result = some text;
}

abbrev pub ending_of : String → Exit → Ending
ending_of dir exit =
    if exit.is_zero
    then ending_of_file dir exit exit.file
    else record (failure dir) { error = some (exit_message exit) }

-- `_watch` up to its pump.
unfoldable pub watch : ℕ → Env → ℕ → Exit → Evals → Evals
unfolding pop
watch now env id exit st =
    let gone = record st { procs = without id st.procs; batch = pop id st.batch } in
    if has id st.cancelled_ids
    then record gone {
      cancelled_ids = without id st.cancelled_ids;
      table =
          finish_eval_run now id (record (failure (env.run_dir id)) { status = cancelled })
            st.table;
    }
    else record gone { table = finish_eval_run now id (ending_of (env.run_dir id) exit) st.table }

-- Whether there was something to cancel. The signal to a process is left to its watcher.
unfoldable pub cancel : ℕ → ℕ → Evals → Bool × Evals
unfolding pop
cancel now id st =
    if has id st.waiting
    then (
      true,
      record st {
        waiting = without id st.waiting;
        pending = pop id st.pending;
        batch = pop id st.batch;
        table =
            finish_eval_run now id
              (record { status = cancelled; result = none; output_dir = none; error = none })
              st.table;
      },
    )
    else if has id st.procs
    then (true, record st { cancelled_ids = id ∷ st.cancelled_ids })
    else (false, st)

-- PATCH /config, up to its pump
abbrev pub set_config : ℕ → Evals → Evals
set_config budget st = record st { concurrency_budget = budget }

-- DELETE /{run_id}: the row goes, whatever the manager has of the run.
abbrev pub delete_run : ℕ → Evals → Evals
delete_run id st = record st { table = (delete_eval_run id st.table).1 }
