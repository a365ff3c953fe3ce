-- ===== src/Runs/Table.antt =====
-- The tables eval_runs and perf_runs of packages/llmops-store/llmops_store.py, each as its rows, the newest first.
use llm_router_server_dashbo.Base.{
  ℕ, suc, String, Bool, true, false, Option, none, some, List, [], ◌∷◌, map, filter, not, ltb,
  length, ◌==◌, ◌||◌, if◌then◌else◌,
}

pub data RunStatus : Type 0 where
  queued running completed failed cancelled : RunStatus

-- A load test has no datasets.
pub record RunRow : Type 0 where
  pub id : ℕ
  pub created_at : ℕ
  pub name : Option String
  pub model : String
  pub target_url : String
  pub datasets : Option String
  pub status : RunStatus
  pub params : String
  pub started_at : Option ℕ
  pub finished_at : Option ℕ
  pub result : Option String
  pub output_dir : Option String
  pub error : Option String

pub record RunTable : Type 0 where
  pub rows : List RunRow
  -- AUTOINCREMENT
  pub next_id : ℕ

abbrev pub is_queued : RunStatus → Bool
is_queued queued = true
is_queued _ = false

abbrev pub is_running : RunStatus → Bool
is_running running = true
is_running _ = false

-- UPDATE ... WHERE id = ?
abbrev pub set_where : ℕ → (RunRow → RunRow) → List RunRow → List RunRow
set_where id f [] = []
set_where id f (r ∷ rows) = (if r.id == id then f r else r) ∷ set_where id f rows

-- What a caller says of a new run.
pub record NewRun : Type 0 where
  pub model : String
  pub target_url : String
  pub datasets : Option String
  pub params : String
  pub name : Option String

abbrev pub new_row : ℕ → ℕ → RunStatus → Option ℕ → NewRun → RunRow
new_row id now status started run = record {
  id = id;
  created_at = now;
  name = run.name;
  model = run.model;
  target_url = run.target_url;
  datasets = run.datasets;
  status = status;
  params = run.params;
  started_at = started;
  finished_at = none;
  result = none;
  output_dir = none;
  error = none;
}

abbrev pub add_row : RunRow → RunTable → RunTable
add_row r db = record { rows = r ∷ db.rows; next_id = suc db.next_id }

unfoldable pub create_eval_run : ℕ → RunStatus → NewRun → RunTable → ℕ × RunTable
create_eval_run now status run db =
    let started = if is_queued status then none else some now in
    (db.next_id, add_row (new_row db.next_id now status started run) db)

abbrev pub flip_to_running : ℕ → RunRow → RunRow
flip_to_running now r =
    if is_queued r.status then record r { status = running; started_at = some now } else r

unfoldable pub start_eval_run : ℕ → ℕ → RunTable → RunTable
start_eval_run now id db = record db { rows = set_where id (flip_to_running now) db.rows }

-- What a run ends with.
pub record Ending : Type 0 where
  pub status : RunStatus
  pub result : Option String
  pub output_dir : Option String
  pub error : Option String

abbrev pub ended : ℕ → Ending → RunRow → RunRow
ended now e r = record r {
  status = e.status;
  result = e.result;
  output_dir = e.output_dir;
  error = e.error;
  finished_at = some now;
}

unfoldable pub finish_eval_run : ℕ → ℕ → Ending → RunTable → RunTable
finish_eval_run now id e db = record db { rows = set_where id (ended now e) db.rows }

unfoldable pub find_run : ℕ → List RunRow → Option RunRow
find_run id [] = none
find_run id (r ∷ rows) = if r.id == id then some r else find_run id rows

unfoldable pub get_eval_run : ℕ → RunTable → Option RunRow
unfolding find_run
get_eval_run id db = find_run id db.rows

unfoldable pub delete_eval_run : ℕ → RunTable → Bool × RunTable
delete_eval_run id db =
    let kept = filter (λ r. not (r.id == id)) db.rows in
    (ltb (length kept) (length db.rows), record db { rows = kept })

-- Where a row was left by a controller that is gone.
abbrev pub interrupted : (RunStatus → Bool) → RunRow → RunRow
interrupted is_stale r =
    if is_stale r.status
    then record r { status = failed; error = some "interrupted by restart" }
    else r

unfoldable pub mark_stale_eval_runs : RunTable → RunTable
mark_stale_eval_runs db = record db {
  rows = map (interrupted (λ s. is_running s || is_queued s)) db.rows;
}

unfoldable pub create_perf_run : ℕ → NewRun → RunTable → ℕ × RunTable
create_perf_run now run db =
    (db.next_id, add_row (new_row db.next_id now running (some now) run) db)

unfoldable pub finish_perf_run : ℕ → ℕ → Ending → RunTable → RunTable
finish_perf_run now id e db = record db { rows = set_where id (ended now e) db.rows }

unfoldable pub get_perf_run : ℕ → RunTable → Option RunRow
unfolding find_run
get_perf_run id db = find_run id db.rows

unfoldable pub delete_perf_run : ℕ → RunTable → Bool × RunTable
delete_perf_run id db =
    let kept = filter (λ r. not (r.id == id)) db.rows in
    (ltb (length kept) (length db.rows), record db { rows = kept })

unfoldable pub mark_stale_perf_runs : RunTable → RunTable
mark_stale_perf_runs db = record db { rows = map (interrupted is_running) db.rows }
