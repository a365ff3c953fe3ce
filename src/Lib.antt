-- ===== src/Lib.antt =====
-- A verification library of the LLM router and its dashboard backend: models of the Python code, and
-- theorems on them. Paths are given from the repository's root.
--
-- The router (apps/router-server/src/llm_router) takes OpenAI-style requests and forwards each to one
-- instance of the group that serves the requested model. What it remembers between requests stands on
-- `app.state`. The parts, and the files that model them:
--   Router/State        backend_runtime_state.py: in-flight counts, cooldowns and drain marks, as
--                       dictionaries of the record `App`. `Inflight` has the counts as counters,
--                       `Marks` the marks over time.
--   Router/Load         the load score of vllm_metrics_client.py. A float is a natural number of
--                       thousandths, or `infinite`, the sentinel of a failed scrape.
--   Router/Score        score_instance, inflight_score and _least_by of routing_strategies.py.
--   Router/Strategies   the seven strategies. `Env` holds what one call reads from outside: the clock,
--                       sha1 as a function into ℕ, the margin, and the draws of the random generator.
--   Router/Select       select_instance with its HTTP errors, which Router/Http has as values.
--   Router/Config       the `LLM_engines` block that the router reads.
--   Router/Lora         lora.py: resolve_model, build_route_chain and iter_models.
--   Router/Overlay      merge_into of overlay.py, the merge of the dynamic models over the configuration.
--   Router/Usage        the token usage that router.py finds in a stream or a body. json.loads is a
--                       parameter, and Base/Json has its values.
--   Router/Scrape       the parser of vllm_metrics_client.py, with floats of any type.
--   Router/Poller       a round of metrics_poller.py, the engines' answers being functions.
--   Router/Proxy        _proxy_to_backend of router.py. The locals of the function are the record
--                       `Frame`, the backends the function `upstream` of `World`. `attempts` is the
--                       loop over the instances of a group, by recursion on the attempts left, `walk`
--                       the loop over the route chain. `Handler` has the checks before the walk and
--                       the answer, the `except` and `finally` blocks and the generator behind it.
--   Router/Auth         auth.py: the rate limiter, the quotas and the key cache. `Access` has
--                       authenticate; `Rate`, `Reference`, `Quota`, `Sourced` and `Revocation` have
--                       what holds of them.
--   Router/Examples     runs on concrete data.
--
-- The backend (apps/backend/app) starts, stops and places the instances that the router calls:
--   Fleet/State, Fleet/Instance   llmops/state.py and llmops/instance.py: the vocabulary of the
--                       lifecycle and the live record.
--   Fleet/Reconciler    llmops/reconciler.py: the pass over one instance, with what it reads from the
--                       process, the log and the probe as the record `Signals`.
--   Fleet/Manager       start, stop, sleep and wake of llmops/manager.py, split where they let go of
--                       the registry lock.
--   Fleet/Lifecycle     the two together as a step relation, with its runs. `Reports`, `Counts`,
--                       `Budget` and `Handles` have what holds of every step or run.
--   Fleet/Converge      converge_desired of llmops/reconciler.py, with the foreign_assignments of
--                       llmops/manager.py that it passes over: the actions that bring the instances of
--                       a node to the states that the store wants.
--   Fleet/Autoscaler    llmops/autoscaler.py: the policy `decide`, with its timing state.
--   Fleet/Scheduler     llmops/scheduler.py: the placement of instances on nodes.
--   Fleet/Leader        core/leader.py and the lease of packages/llmops-store: which replica runs the
--                       loops above. `Exclusion` has what holds of any order of attempts.
--   Fleet/LoadMonitor   llmops/load_monitor.py: the load of each group, which the autoscaler reads.
--   Fleet/Cost          services/cost.py: the cost report. `Rounding` and `Keys` have what holds of it.
--   Fleet/Events        llmops/events.py: which transitions are alerts.
--   Fleet/Notifier      llmops/notifier.py: which sinks an alert goes to, and the cooldown.
--   Fleet/Examples      runs on concrete data.
--
-- The store that both share (packages/llmops-store/llmops_store.py), each table as a list of rows and each
-- statement as a function on it:
--   Store/Leases        drain marks, live addresses, nodes and observed states, whose rows lapse. `History`
--                       compares a table with what was done to it, `Drains` follows a mark to a router.
--   Store/Versions      the snapshots of the overlay, with snapshot_overlay of
--                       apps/backend/app/core/config_versioning.py. `Current` has what is read back, `Pages`
--                       the pages of the list.
--   Store/Accounts      API keys and operators. `Dead` and `Revoked` have what holds of a revoked token.
--   Store/Registry      the plain tables: wanted states, assignments, prices, sinks of alerts and the audit log.
--                       `Owners` has what holds of the assignments.
--   Store/Logs          the request log: its sums (`Sums`) and percentiles (`Percentile`).
--   Store/Examples      runs on concrete data.
--
-- Evaluations and load tests of the models (apps/backend/app/eval, apps/backend/app/perf):
--   Runs/Table          their rows, eval_runs and perf_runs of packages/llmops-store/llmops_store.py.
--   Runs/Target         _resolve: what a run addresses.
--   Runs/Evals          EvalManager: requests, the turns of the pump, ends and cancellations. A request is cut
--                       at the insert of its row, and a launch at the update of it, where others can come
--                       between. `Steps` has the parts as events in any order, with the deletion of rows;
--                       `Places`, `Budget`, `Order`, `Status`, `Tracked` and `Settled` have what holds of
--                       them.
--   Runs/LoadTest       PerfManager, its start cut where it waits for the store. `Exclusion` has both managers
--                       beside each other.
--   Runs/Examples       runs on concrete data.
--
-- Base has the shared helpers: tests on numbers, lists over the native ℕ, and dictionaries as
-- association lists.
--
-- The handler calls select_instance for each attempt, with the instances already tried; selection reads
-- the counts, marks and metrics, and the handler changes the counts and the marks on every way out.
-- One call is modelled as one step of the state: what other requests do between its suspension points
-- is a change of `App` before or after it, save in the theorems on counts, which hold for any order
-- of calls.
--
-- Loops are structural recursion on lists or on the attempts left, so no fuel is needed; the loop of an
-- evaluation pump takes one more than the runs that wait, as each turn takes one from the queue.
--
-- Not modelled: the HTTP client, the admin and pooling endpoints of the router, the HTTP API of the
-- backend, the launch and the probes of processes, the database drivers, and the tools that run an
-- evaluation, which are input and output. The number in the text of a 5xx mark is left out.
-- Closing a stream of the HTTP client and the store's calls of the evaluations are taken not to raise.
pub mod Base
pub mod Router
pub mod Fleet
pub mod Runs
pub mod Store
