-- ===== src/Runs/LoadTest.antt =====
-- PerfManager of apps/backend/app/perf/manager.py: the load tests, one at a time. `start` is cut where it waits for the
-- store, so that another request can come between its check and its process.
use llm_router_server_dashbo.Base.{
  ℕ, String, Bool, true, false, Option, none, some, is_some, List, [], ◌∷◌, or_default, ◌==◌, ◌||◌,
  str_eq, if◌then◌else◌, ◌⊎◌, inl, inr,
}
use llm_router_server_dashbo.Base.Dict.{Dict, lookup}
use llm_router_server_dashbo.Runs.Table.{
  completed, failed, cancelled, NewRun, RunTable, Ending, create_perf_run, finish_perf_run,
}
use llm_router_server_dashbo.Runs.Target.{Engines, resolve}
use llm_router_server_dashbo.Runs.Evals.{ResultFile, missing, unreadable, parsed, has, without}
use Prim.Native.String.{◌++◌}

pub record PerfRequest : Type 0 where
  pub model : String
  pub mode : Option String
  pub target : Option String
  pub instance_key : Option String
  pub endpoint : Option String
  pub name : Option String

-- The models of the embedding server, each with its `model_name`.
pub record EmbeddingServer : Type 0 where
  pub port : ℕ
  pub embedding_models : Dict (Option String)
  pub reranking_models : Dict (Option String)

pub record PerfEnv : Type 0 where
  pub router_url : String
  pub run_dir : ℕ → String
  pub text : ℕ → String
  pub dumps : PerfRequest → String
  pub engines : Engines
  pub embedding_server : Option EmbeddingServer

abbrev models_of : String → Option EmbeddingServer → Dict (Option String)
models_of mode none = []
models_of mode (some emb) =
    if str_eq mode "embedding" then emb.embedding_models else emb.reranking_models

abbrev port_of : Option EmbeddingServer → ℕ
port_of none = 0
port_of (some emb) = emb.port

-- The name, the base of the address and the tokenizer; `none` is a PerfError. Without a server no model is found.
unfoldable pub resolve_embedding :
    PerfEnv → String → String → String → Option (String × String × String)
resolve_embedding env name mode target = elim (lookup name (models_of mode env.embedding_server)) [
  | none ↦ none
  | some model_name ↦ some (
    name,
    (if str_eq target "instance"
        then "http://127.0.0.1:" ++ env.text (port_of env.embedding_server)
        else env.router_url),
    or_default model_name name,
  )
]

abbrev at_path : String → String × String × String → String × String × String
at_path path (field, base, tokenizer) = (field, base ++ path, tokenizer)

abbrev is_mode : String → Option String → Bool
is_mode mode none = false
is_mode mode (some m) = str_eq m mode

unfoldable pub perf_target : PerfEnv → PerfRequest → Option (String × String × String)
unfolding resolve_embedding
perf_target env req =
    let mode = or_default req.mode "sweep" in
    let target = or_default req.target "router" in
    if str_eq mode "embedding" || str_eq mode "rerank"
    then elim (resolve_embedding env req.model mode target) [
      | none ↦ none
      | some found ↦
          some (at_path (if str_eq mode "rerank" then "/v1/rerank" else "/v1/embeddings") found)
    ]
    else elim (resolve env.text env.router_url env.engines req.model target req.instance_key) [
      | none ↦ none
      | some found ↦ some (
          at_path
            (if is_mode "completions" req.endpoint
              then "/v1/completions"
              else "/v1/chat/completions")
            found)
    ]

pub record Perf : Type 0 where
  pub current : Option ℕ
  pub procs : List ℕ
  pub cancelled_ids : List ℕ
  pub table : RunTable

abbrev pub perf_is_busy : Perf → Bool
perf_is_busy st = is_some st.current

abbrev pub perf_run : PerfEnv → PerfRequest → String → NewRun
perf_run env req url = record {
  model = req.model;
  target_url = url;
  datasets = none;
  params = env.dumps req;
  name = req.name;
}

-- The check of `start` and the row that it makes; `none` is PerfBusy or a PerfError.
unfoldable pub begin_test : ℕ → PerfEnv → PerfRequest → Perf → Option (ℕ × Perf)
begin_test now env req st = if is_some st.current then none else elim (perf_target env req) [
  | none ↦ none
  | some (field, url, tokenizer) ↦
      let (id, table) = create_perf_run now (perf_run env req url) st.table in
      some (id, record st { table = table })
]

-- The rest of `start`, from the process on.
unfoldable pub spawn_test : ℕ → Perf → Perf
spawn_test id st = record st { current = some id; procs = id ∷ st.procs }

unfoldable pub start_test : ℕ → PerfEnv → PerfRequest → Perf → Option Perf
unfolding begin_test spawn_test
start_test now env req st = elim (begin_test now env req st) [
  | none ↦ none
  | some (id, next) ↦ some (spawn_test id next)
]

-- if self._current == run_id: self._current = None
abbrev pub vacated : ℕ → Option ℕ → Option ℕ
vacated id none = none
vacated id (some current) = if current == id then none else some current

abbrev perf_failure : String → Option String → Ending
perf_failure dir error = record {
  status = failed;
  result = none;
  output_dir = some dir;
  error = error;
}

-- The ending of a run whose process ended with a status (whether it is zero, and its text). `reads` is
-- `_parse_result` with the text of what it gives; `inr` is the error that it raises.
abbrev pub outcome_of_file : (String → String ⊎ String) → String → String → ResultFile → Ending
outcome_of_file reads dir rc missing =
    perf_failure dir (some ("runner exited rc=" ++ rc ++ "; see run.log"))
outcome_of_file reads dir rc (unreadable e) = perf_failure dir (some ("result parse error: " ++ e))
outcome_of_file reads dir rc (parsed text) = elim (reads text) [
  | inl points ↦ record (perf_failure dir none) { status = completed; result = some points }
  | inr e ↦ perf_failure dir (some ("result parse error: " ++ e))
]

abbrev pub outcome_of : (String → String ⊎ String) → String → Bool → String → ResultFile → Ending
outcome_of reads dir is_zero rc file =
    if is_zero
    then outcome_of_file reads dir rc file
    else perf_failure dir (some ("runner exited rc=" ++ rc ++ "; see run.log"))

-- `_watch`, apart from its pump of the evaluations.
unfoldable pub watch_test : ℕ → String → Ending → ℕ → Perf → Perf
watch_test now dir outcome id st =
    let gone = record st { procs = without id st.procs; current = vacated id st.current } in
    if has id st.cancelled_ids
    then record gone {
      cancelled_ids = without id st.cancelled_ids;
      table =
          finish_perf_run now id (record (perf_failure dir none) { status = cancelled }) st.table;
    }
    else record gone { table = finish_perf_run now id outcome st.table }

-- Whether there was a process; the signal is left to its watcher.
unfoldable pub cancel_test : ℕ → Perf → Bool × Perf
cancel_test id st =
    if has id st.procs
    then (true, record st { cancelled_ids = id ∷ st.cancelled_ids })
    else (false, st)
