-- ===== src/Store/Examples.antt =====
-- Runs of the store on concrete data.
use llm_router_server_dashbo.Base.{
  ℕ, ◌+◌, ◌≤◌, str_eq, filter, Memᴰ, ◌<◌, ◌≡◌, refl, String, Bool, true, false, Option, none, some,
  is_some, List, [], ◌∷◌, arith, length, ltb,
}
use llm_router_server_dashbo.Base.Dict.{Dict, lookup, passing}
use llm_router_server_dashbo.Router.State.{App, is_draining, make_backend_key}
use llm_router_server_dashbo.Store.Leases.{
  Leases, LiveInstance, NodeRow, list_rows, upsert_instance_live, prune_instances_live,
  list_instances_live, upsert_node, list_nodes,
}
use llm_router_server_dashbo.Store.Leases.History.{
  Statement, upserted, removed, pruned, execute_all, granted, live, lookup-list_rows,
}
use llm_router_server_dashbo.Store.Leases.Drains.{refresh_draining, is_draining-refresh}
use llm_router_server_dashbo.Store.Versions.{
  Versions, Origin, get_current_overlay, get_config_version, list_config_versions,
}
use llm_router_server_dashbo.Store.Versions.Current.{
  Act, snapshotted, versions_pruned, perform_all, no_versions, last_blob,
  get_current_overlay-perform_all,
}
use llm_router_server_dashbo.Store.Versions.Pages.{all_pages, all_pages_complete}
use llm_router_server_dashbo.Store.Accounts.{
  Account, Accounts, OperatorColumns, get_active_operator_by_hash, revoke_operator,
  count_active_operators,
}
use llm_router_server_dashbo.Store.Accounts.Revoked.{
  OperatorStatement, operator_created, operator_revoked, token_rotated, role_set, on_operators,
  on_operators_all, get_active_operator-revoke,
}
use llm_router_server_dashbo.Store.Logs.{
  RequestRow, tokens_used_by_key, token_usage_by_key, percentile,
}
use llm_router_server_dashbo.Store.Logs.Sums.{tokens_where, tokens_used_by_key-groups}
use llm_router_server_dashbo.Store.Logs.Percentile.{percentile-le}
use llm_router_server_dashbo.Store.Registry.{list_assignments}
use llm_router_server_dashbo.Store.Registry.Owners.{
  Assignment, assigned, unassigned, write_assignments, owner, lookup-list_assignments,
}

-- a second backend renews the row of the first, and a prune runs in between
abbrev statements : List (Statement String)
statements =
    upserted 100 "m::a" "ready" 30
    ∷ upserted 100 "m::b" "ready" 30
    ∷ pruned 125
    ∷ upserted 128 "m::a" "asleep" 30
    ∷ removed "m::c"
    ∷ pruned 140
    ∷ []

lookup-list_rows_example :
    lookup "m::a" (list_rows 140 (execute_all statements []))
    ≡ passing (live 140) (granted "m::a" none statements)
lookup-list_rows_example = lookup-list_rows 140 "m::a" statements (omega arith, (omega arith, tt))

-- a mark that is renewed, and one that is cleared
abbrev marks : List (Statement (Unit {0}))
marks = upserted 100 "m::a" tt 300 ∷ upserted 110 "m::b" tt 300 ∷ removed "m::b" ∷ pruned 150 ∷ []

abbrev no_leases : Leases
no_leases = record { draining = []; instances_live = []; nodes = []; instance_observed = [] }

abbrev marked_leases : Leases
marked_leases = record no_leases { draining = execute_all marks [] }

abbrev fresh_app : App
fresh_app = record {
  backend_inflight = [];
  backend_health = [];
  draining = [];
  metrics_cache = [];
  rr_counters = [];
  routing_strategy = none;
}

is_draining-refresh_example :
    (is_draining 390 (refresh_draining 200 marked_leases fresh_app) "m" "a").0
    ≡ is_some (passing (live 390) (granted (make_backend_key "m" "a") none marks))
is_draining-refresh_example =
    is_draining-refresh 200 390 "m" "a" marks marked_leases fresh_app refl (omega arith, tt)
      (omega arith)

abbrev by_admin : ℕ → Origin
by_admin ts = record { ts = ts; actor = some "admin"; role = some "admin"; summary = none }

-- the second snapshot repeats the first, and the prune drops the version before it
abbrev acts : List Act
acts =
    snapshotted (by_admin 1) "{\"a\": 1}"
    ∷ snapshotted (by_admin 2) "{\"a\": 2}"
    ∷ snapshotted (by_admin 3) "{\"a\": 2}"
    ∷ snapshotted (by_admin 4) "{}"
    ∷ versions_pruned 2
    ∷ []

-- a hash without collisions
abbrev hash : String → String
hash s = s

get_current_overlay-perform_all_example :
    get_current_overlay (perform_all hash acts no_versions) ≡ last_blob none acts
get_current_overlay-perform_all_example =
    get_current_overlay-perform_all hash (λ s t e. e) acts no_versions (omega arith, tt) tt

acts_fit : length (perform_all hash acts no_versions).rows < 5
unfolding perform_all llm_router_server_dashbo.Store.Versions.Current.perform
    llm_router_server_dashbo.Store.Versions.snapshot_overlay
    llm_router_server_dashbo.Store.Versions.record_config_version
    llm_router_server_dashbo.Store.Versions.prune_config_versions
acts_fit = omega arith

all_pages_complete_example :
    all_pages 5 none 0 (perform_all hash acts no_versions)
    ≡ (perform_all hash acts no_versions).rows
all_pages_complete_example = all_pages_complete hash acts 5 0 acts_fit

abbrev a_node : NodeRow
a_node = record { hostname = none; capacity = none; engines = none; api_url = none }

abbrev live_a : LiveInstance
live_a = record {
  group_key = "m";
  instance_id = "a";
  node_id = some "n1";
  host = "10.0.0.1";
  port = 8001;
  state = some "ready";
}

abbrev busy : Leases
busy =
    upsert_node 120 "n1" a_node 30
      (upsert_instance_live 100 "m::a" live_a 30 (upsert_node 100 "n1" a_node 30 no_leases))

-- A row lapses at its time, a node that beats again stays, and a prune takes what has lapsed.
leases_run :
    (list_instances_live 129 busy ≡ busy.instances_live)
    × (list_instances_live 130 busy ≡ [])
    × (lookup "n1" (list_nodes 130 busy) ≡ some (record { columns = a_node; expires_at = 150 }))
    × ((prune_instances_live 130 busy).instances_live ≡ [])
unfolding list_instances_live list_nodes prune_instances_live upsert_node upsert_instance_live
    lookup llm_router_server_dashbo.Base.Dict.insert llm_router_server_dashbo.Base.Dict.keep
leases_run = (refl, refl, refl, refl)

abbrev ann : OperatorColumns
ann = record { label = "ann"; role = "admin" }

abbrev ann_row : Account OperatorColumns
ann_row = record {
  id = 1;
  hash = "h1";
  prefix = "sk-op-1";
  created_at = 10;
  last_used_at = none;
  revoked = false;
  extra = ann;
}

abbrev operators : Accounts OperatorColumns
operators = record { rows = ann_row ∷ []; next_id = 2 }

-- The hash is asked for again by a new operator and by a rotation, and both raise.
abbrev later_statements : List OperatorStatement
later_statements =
    operator_created 20 ann "h1" "sk-op-2"
    ∷ operator_created 21 ann "h2" "sk-op-3"
    ∷ token_rotated 2 "h1" "sk-op-4"
    ∷ role_set 1 "viewer"
    ∷ []

ann_is_active : get_active_operator_by_hash "h1" operators ≡ some ann_row
unfolding get_active_operator_by_hash
ann_is_active = refl

get_active_operator-revoke_example :
    get_active_operator_by_hash "h1"
      (on_operators_all later_statements (revoke_operator 1 operators).1)
    ≡ none
get_active_operator-revoke_example =
    get_active_operator-revoke "h1" ann_row later_statements operators ann_is_active

rotated_run :
    (get_active_operator_by_hash "h1" (on_operators (token_rotated 1 "h3" "p") operators) ≡ none)
    × (count_active_operators (on_operators (token_rotated 1 "h3" "p") operators) ≡ 1)
    × (count_active_operators (on_operators (operator_revoked 1) operators) ≡ 0)
unfolding get_active_operator_by_hash on_operators count_active_operators
rotated_run = (refl, refl, refl)

abbrev logged_row : ℕ → ℕ → String → Option ℕ → Option String → RequestRow
logged_row id ts model tokens key = record {
  id = id;
  ts = ts;
  model_key = model;
  instance_id = none;
  path = "/v1/chat/completions";
  status_code = some 200;
  latency_ms = some 12;
  prompt_tokens = tokens;
  completion_tokens = none;
  total_tokens = tokens;
  error = none;
  api_key_name = key;
}

-- a request before the window, one without a key and one without a count
abbrev log_rows : List RequestRow
log_rows =
    logged_row 5 50 "n" (some 7) (some "ann")
    ∷ logged_row 4 40 "m" none (some "ann")
    ∷ logged_row 3 30 "m" (some 5) (some "ann")
    ∷ logged_row 2 20 "m" (some 3) none
    ∷ logged_row 1 10 "m" (some 2) (some "ann")
    ∷ []

tokens_used_by_key-groups_example :
    tokens_used_by_key "ann" (some 20) log_rows
    ≡ tokens_where (λ k. str_eq k.0 "ann") (token_usage_by_key (some 20) none log_rows)
tokens_used_by_key-groups_example = tokens_used_by_key-groups "ann" (some 20) log_rows

tokens_run :
    (tokens_used_by_key "ann" (some 20) log_rows ≡ 12)
    × (length (token_usage_by_key (some 20) none log_rows) ≡ 2)
unfolding tokens_used_by_key token_usage_by_key
tokens_run = (refl, refl)

abbrev latencies : List ℕ
latencies = 30 ∷ 10 ∷ 50 ∷ 20 ∷ []

percentiles : (percentile latencies 50 ≡ some 30) × (percentile latencies 95 ≡ some 50)
unfolding percentile
percentiles = (refl, refl)

percentile-le_example : Memᴰ 30 latencies × Memᴰ 50 latencies × (30 ≤ 50)
percentile-le_example =
    percentile-le latencies 50 95 30 50 (omega arith) percentiles.0 percentiles.1

abbrev assignments : List Assignment
assignments =
    assigned 1 "m::a" "n1"
    ∷ assigned 2 "m::b" "n1"
    ∷ assigned 3 "m::a" "n2"
    ∷ unassigned "m::b"
    ∷ []

lookup-list_assignments_example :
    lookup "m::a" (list_assignments (some "n1") (write_assignments assignments []))
    ≡ passing (λ n. str_eq n "n1") (owner "m::a" none assignments)
lookup-list_assignments_example = lookup-list_assignments assignments "m::a" "n1"
