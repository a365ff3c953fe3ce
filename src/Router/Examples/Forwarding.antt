-- ===== src/Router/Examples/Forwarding.antt =====
-- Runs of the theorems on forwarding: one instance refuses, or every instance answers 502.
use llm_router_server_dashbo.Base.{
  ℕ, ◌+◌, ◌≤◌, ◌<◌, ◌==◌, ◌-◌, ◌≡◌, refl, String, Bool, true, false, Option, none, some, List, [],
  ◌∷◌, All, arith, ltb, str_eq, if◌then◌else◌, length, get_or, ◌⊎◌, inl, inr, Memᴰ, map,
}
use llm_router_server_dashbo.Base.Dict.{Dict}
use llm_router_server_dashbo.Router.Load.{Load, finite, infinite, Metrics, load_le, ◌⊕◌}
use llm_router_server_dashbo.Router.Http.{HttpException, ok, raised, http_error}
use llm_router_server_dashbo.Router.State.{
  App, Address, make_backend_key, get_inflight, incr_inflight, is_backend_in_cooldown,
  mark_backend_failure, mark_backend_success, mark_draining, is_draining,
}
use llm_router_server_dashbo.Router.Score.{Instance, least_by, score_instance}
use llm_router_server_dashbo.Router.Strategies.{
  Env, SelectContext, candidates, affinity_to, run_strategy, p2c,
}
use llm_router_server_dashbo.Router.Select.{Request, select_instance}
use llm_router_server_dashbo.Router.Proxy.{
  World, Keys, Frame, Response, failed, responded, walk, selection, on_server_error, on_response,
  begin_attempt, try_target,
}
use llm_router_server_dashbo.Router.Proxy.Handler.{
  Read, content, read_error, start_frame, proxy_to_backend,
}
use llm_router_server_dashbo.Router.Proxy.Release.{Releases, proxy_to_backend-Releases}
use llm_router_server_dashbo.Router.Proxy.Bounds.{walk-made}
use llm_router_server_dashbo.Router.Proxy.Stale.{retried}
use llm_router_server_dashbo.Router.Examples.{
  instance_a, fresh_app, busy_app, first_env, two_groups, target_m,
}

-- `a` refuses the connection, and `b` answers.
abbrev half_down : World
half_down = record {
  env = λ _. first_env;
  upstream = λ _ addr _.
      if addr.port == 8001
      then failed "refused"
      else responded (record { status_code = 200; is_event_stream = false });
  live_addrs = λ _ _. none;
}

abbrev bad_gateway : Response
bad_gateway = record { status_code = 502; is_event_stream = false }

-- every instance answers 502
abbrev failing : World
failing = record half_down { upstream = λ _ _ _. responded bad_gateway }

-- reading needs an open response
abbrev read_open : Read
read_open true r = content "{}"
read_open false r = read_error "stream closed"

abbrev no_keys : Keys
no_keys = record { session_key = none; prompt_prefix = none }

proxy_to_backend-Releases_example : Releases busy_app 0 (
    proxy_to_backend half_down read_open two_groups no_keys "/v1/completions"
      (some "m")
      (start_frame busy_app 0))
proxy_to_backend-Releases_example =
    proxy_to_backend-Releases busy_app 0 half_down read_open two_groups no_keys "/v1/completions"
      (some "m")

walk-made_example :
    ((try_target half_down no_keys target_m (start_frame busy_app 0)).0.attempts_made ≤ 2)
    × ((walk half_down no_keys (target_m ∷ []) (start_frame busy_app 0)).attempts_made ≤ 2)
    × (2 ≤ 3)
walk-made_example =
    walk-made half_down no_keys (target_m ∷ []) (start_frame busy_app 0) target_m
      (start_frame busy_app 0)

-- the frame of a request that the group's one instance answered with 502
abbrev closed_frame : Frame
closed_frame = record (start_frame busy_app 0) {
  model_key = some "m";
  instance_id = some "a";
  response = some bad_gateway;
}

abbrev bad_stream : Response
bad_stream = record { status_code = 502; is_event_stream = true }

-- `b` sleeps, so no instance is left once `a` has failed
abbrev asleep : Metrics
asleep = record {
  base_url = "http://localhost:8002";
  running = finite 0;
  waiting = finite 0;
  kv_cache_usage_perc = finite 0;
  prompt_tokens = finite 0;
  generation_tokens = finite 0;
  raw_metrics = none;
  is_sleeping = true;
}

abbrev sleepy_app : App
sleepy_app = record fresh_app { metrics_cache = ("m", ("b", asleep) ∷ []) ∷ [] }

abbrev sleepy_frame : Frame
sleepy_frame = start_frame sleepy_app 0

abbrev none_left : HttpException
none_left = http_error 503 "All instances of model 'm' are asleep."

selects_a :
    selection failing no_keys target_m "least_load" [] sleepy_frame ≡ (ok instance_a, sleepy_app)
unfolding selection select_instance llm_router_server_dashbo.Router.Score.is_instance_sleeping
    llm_router_server_dashbo.Router.Score.cached_metric llm_router_server_dashbo.Base.Dict.lookup
    llm_router_server_dashbo.Router.Select.drop_draining
    llm_router_server_dashbo.Router.State.is_draining llm_router_server_dashbo.Router.Select.pick
    llm_router_server_dashbo.Router.Strategies.run_strategy
    llm_router_server_dashbo.Router.Select.strategy_or_default
    llm_router_server_dashbo.Router.Strategies.strategy_of_name
    llm_router_server_dashbo.Router.Score.least_by llm_router_server_dashbo.Router.Load.load_lt
    llm_router_server_dashbo.Router.Score.score_instance llm_router_server_dashbo.Router.Load.◌⊕◌
    llm_router_server_dashbo.Router.Score.cooldown_penalty
    llm_router_server_dashbo.Router.State.get_inflight
    llm_router_server_dashbo.Router.State.make_backend_key
    llm_router_server_dashbo.Router.State.is_backend_in_cooldown
    llm_router_server_dashbo.Base.Dict.insert llm_router_server_dashbo.Base.Dict.remove
    llm_router_server_dashbo.Router.Load.compute_load_score
    llm_router_server_dashbo.Router.Strategies.pick_least_load
selects_a = refl

abbrev after_failure : Frame
after_failure = retried failing target_m instance_a sleepy_app bad_gateway sleepy_frame

finds_none :
    selection failing no_keys target_m "least_load" ("a" ∷ []) after_failure
    ≡ (raised none_left, after_failure.app)
unfolding selection on_server_error on_response begin_attempt
    llm_router_server_dashbo.Router.State.mark_backend_failure
    llm_router_server_dashbo.Router.State.incr_inflight
    llm_router_server_dashbo.Router.State.decr_inflight select_instance
    llm_router_server_dashbo.Router.Score.is_instance_sleeping
    llm_router_server_dashbo.Router.Score.cached_metric llm_router_server_dashbo.Base.Dict.lookup
    llm_router_server_dashbo.Router.Select.drop_draining
    llm_router_server_dashbo.Router.State.is_draining llm_router_server_dashbo.Router.Select.pick
    llm_router_server_dashbo.Router.Strategies.run_strategy
    llm_router_server_dashbo.Router.Select.strategy_or_default
    llm_router_server_dashbo.Router.Strategies.strategy_of_name
    llm_router_server_dashbo.Router.Score.least_by llm_router_server_dashbo.Router.Load.load_lt
    llm_router_server_dashbo.Router.Score.score_instance llm_router_server_dashbo.Router.Load.◌⊕◌
    llm_router_server_dashbo.Router.Score.cooldown_penalty
    llm_router_server_dashbo.Router.State.get_inflight
    llm_router_server_dashbo.Router.State.make_backend_key
    llm_router_server_dashbo.Router.State.is_backend_in_cooldown
    llm_router_server_dashbo.Base.Dict.insert llm_router_server_dashbo.Base.Dict.remove
    llm_router_server_dashbo.Router.Load.compute_load_score
    llm_router_server_dashbo.Router.Strategies.pick_least_load
finds_none = refl
