-- ===== src/Router/Examples.antt =====
-- Data for the runs of the router's theorems: a group of two instances that falls back to a group of
-- one.
pub mod States
pub mod Access
pub mod Routing
pub mod Forwarding
pub mod Merging
pub mod Reporting
use llm_router_server_dashbo.Base.{
  ℕ, ◌+◌, ◌≤◌, ◌<◌, ◌≡◌, refl, String, Bool, true, false, Option, none, some, List, [], ◌∷◌, All,
  arith, ltb, str_eq, if◌then◌else◌, length, get_or, ◌⊎◌, inl, inr, Memᴰ, map,
}
use mathlib.Core.List.Memᴰ
use llm_router_server_dashbo.Base.Dict.{Dict}
use llm_router_server_dashbo.Router.Load.{Load, finite, infinite, Metrics, load_le, ◌⊕◌}
use llm_router_server_dashbo.Router.Http.{HttpException, Result, ok, raised, http_error}
use llm_router_server_dashbo.Router.State.{
  App, Address, make_backend_key, get_inflight, incr_inflight, is_backend_in_cooldown,
  mark_backend_failure, mark_backend_success, mark_draining, is_draining,
}
use llm_router_server_dashbo.Router.State.Inflight.{
  Call, begins, ends, run, get_inflight-run, IsPositive, run-IsPositive,
}
use llm_router_server_dashbo.Router.State.Marks.{
  cooldown-mark_backend_failure, cooldown-mark_backend_success, is_draining-mark_draining,
  is_draining_stable,
}
use llm_router_server_dashbo.Router.Score.{Instance, least_by, score_instance}
use llm_router_server_dashbo.Router.Score.Least.{IsFirstLeast, least_by-IsFirstLeast}
use llm_router_server_dashbo.Router.Strategies.{
  Env, SelectContext, candidates, affinity_to, run_strategy, p2c,
}
use llm_router_server_dashbo.Router.Strategies.RoundRobin.{picks, round_robin_fair}
use llm_router_server_dashbo.Router.Strategies.Affinity.{affinity_to-load}
use llm_router_server_dashbo.Router.Strategies.Choice.{IsChoice, run_strategy-IsChoice}
use llm_router_server_dashbo.Router.Config.{Group, Config, LoraModule}
use llm_router_server_dashbo.Router.Select.{Request, select_instance}
use llm_router_server_dashbo.Router.Select.Spec.{
  IsRoutable, select_instance-IsRoutable, select_instance-Ends,
}
use llm_router_server_dashbo.Router.Lora.{Target, resolve_model, fallback_names, build_route_chain}
use llm_router_server_dashbo.Router.Lora.Chain.{
  IsFallback, IsGroup, DistinctFrom, build_route_chain-IsFallback, build_route_chain-DistinctFrom,
  build_route_chain-repeats,
}
use llm_router_server_dashbo.Router.Proxy.{
  World, Keys, Frame, Outcome, Response, failed, responded, walk, selection, attempts, address_of,
}
use llm_router_server_dashbo.Router.Proxy.Handler.{
  Read, ReadOutcome, content, read_error, Ended, error, start_frame, proxy_to_backend,
  answer_response, end_stream,
}
use llm_router_server_dashbo.Router.Proxy.Release.{Releases, proxy_to_backend-Releases}
use llm_router_server_dashbo.Router.Proxy.Bounds.{walk-made, budget}
use llm_router_server_dashbo.Router.Proxy.Stale.{
  retried, attempts-leave_response, answer_response-of_closed,
}

abbrev pub instance_a : Instance
instance_a = record { id = "a"; host = none; port = 8001 }

abbrev pub instance_b : Instance
instance_b = record { id = "b"; host = none; port = 8002 }

abbrev pub fresh_app : App
fresh_app = record {
  backend_inflight = [];
  backend_health = [];
  draining = [];
  metrics_cache = [];
  rr_counters = [];
  routing_strategy = none;
}

-- one request is out on `a`
abbrev pub busy_app : App
busy_app = record fresh_app { backend_inflight = ("m::a", 1) ∷ [] }

abbrev pub first_env : Env
first_env = record {
  now = 5_000;
  hash_key = λ _. 1;
  affinity_load_margin = 50_000;
  draw = 1;
  second_draw = 0;
}

abbrev pub group_m : Group
group_m = record {
  instances = instance_a ∷ instance_b ∷ [];
  model_tag = none;
  kind = none;
  lora_modules = record { name = some "adapter" } ∷ [];
  fallback = "n" ∷ [];
  routing_strategy = none;
}

abbrev pub group_n : Group
group_n = record {
  instances = instance_b ∷ [];
  model_tag = none;
  kind = none;
  lora_modules = [];
  fallback = [];
  routing_strategy = none;
}

-- a group whose fallback is an adapter of its own
abbrev pub group_s : Group
group_s = record group_m { fallback = "adapter" ∷ [] }

abbrev pub two_groups : Config
two_groups = record { llm_engines = ("m", group_m) ∷ ("n", group_n) ∷ [] }

abbrev pub self_fallback : Config
self_fallback = record { llm_engines = ("m", group_s) ∷ [] }

abbrev pub target_m : Target
target_m = record {
  route_key = "m";
  model_cfg = group_m;
  forward_name = "m";
  is_lora = false;
  kind = "chat";
}

abbrev pub both : SelectContext
both = record {
  model_key = "m";
  first = instance_a;
  others = instance_b ∷ [];
  all_instances = instance_a ∷ instance_b ∷ [];
  session_key = none;
  prompt_prefix = none;
}

abbrev pub request_m : Request
request_m = record {
  model_key = "m";
  instances = instance_a ∷ instance_b ∷ [];
  strategy = some "least_load";
  exclude = [];
  session_key = none;
  prompt_prefix = none;
}
