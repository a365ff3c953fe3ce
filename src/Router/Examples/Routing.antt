-- ===== src/Router/Examples/Routing.antt =====
-- Runs of the theorems on the strategies, the selection and the route chain.
use llm_router_server_dashbo.Base.{
  ℕ, ◌+◌, ◌≤◌, ◌<◌, ◌≡◌, refl, String, Bool, true, false, Option, none, some, List, [], ◌∷◌, All,
  arith, ltb, str_eq, if◌then◌else◌, length, get_or, ◌⊎◌, inl, inr, Memᴰ, map, any, eq_iff,
}
use llm_router_server_dashbo.Base.Dict.{Dict}
use llm_router_server_dashbo.Router.Load.{Load, finite, infinite, Metrics, load_le, ◌⊕◌}
use llm_router_server_dashbo.Router.Http.{ok}
use llm_router_server_dashbo.Router.State.{
  App, Address, make_backend_key, get_inflight, incr_inflight, is_backend_in_cooldown,
  mark_backend_failure, mark_backend_success, mark_draining, is_draining,
}
use llm_router_server_dashbo.Router.Score.{Instance, least_by, score_instance}
use llm_router_server_dashbo.Router.Strategies.{
  Env, SelectContext, candidates, affinity_to, run_strategy, p2c,
}
use llm_router_server_dashbo.Router.Strategies.RoundRobin.{picks, round_robin_fair}
use llm_router_server_dashbo.Router.Strategies.Affinity.{affinity_to-load}
use llm_router_server_dashbo.Router.Select.{Request, select_instance}
use llm_router_server_dashbo.Router.Select.Picked.{is_servable}
use llm_router_server_dashbo.Router.Select.Spec.{
  IsRoutable, select_instance-IsRoutable, select_instance-Ends,
}
use llm_router_server_dashbo.Router.Lora.{Target, resolve_model, fallback_names, build_route_chain}
use llm_router_server_dashbo.Router.Examples.{
  instance_a, instance_b, busy_app, first_env, group_s, self_fallback, target_m, both, request_m,
}

round_robin_fair_example :
    (i : ℕ) × (i < length (candidates both))
    × (get_or (picks (length (candidates both)) busy_app both) i instance_a ≡ instance_b)
round_robin_fair_example = round_robin_fair busy_app both 1 (omega arith)

affinity_to-load_example :
    All
      (λ x.
        load_le
          (score_instance 5_000 busy_app "m" (affinity_to first_env busy_app both "user"))
          (score_instance 5_000 busy_app "m" x ⊕ finite 50_000)
        ≡ true)
      (instance_a ∷ instance_b ∷ [])
affinity_to-load_example = affinity_to-load first_env busy_app both "user"

-- the idle instance has the lower load
selects_b : (select_instance first_env busy_app request_m).0 ≡ ok instance_b
unfolding select_instance llm_router_server_dashbo.Router.Score.is_instance_sleeping
    llm_router_server_dashbo.Router.Score.cached_metric llm_router_server_dashbo.Base.Dict.lookup
    llm_router_server_dashbo.Router.Select.drop_draining
    llm_router_server_dashbo.Router.State.is_draining llm_router_server_dashbo.Router.Select.pick
    llm_router_server_dashbo.Router.Strategies.run_strategy
    llm_router_server_dashbo.Router.Select.strategy_or_default
    llm_router_server_dashbo.Router.Strategies.strategy_of_name
    llm_router_server_dashbo.Router.Score.least_by llm_router_server_dashbo.Router.Load.load_lt
    llm_router_server_dashbo.Router.Score.score_instance llm_router_server_dashbo.Router.Load.◌⊕◌
    llm_router_server_dashbo.Router.Score.cooldown_penalty
    llm_router_server_dashbo.Router.State.get_inflight
    llm_router_server_dashbo.Router.State.make_backend_key
    llm_router_server_dashbo.Router.State.is_backend_in_cooldown
    llm_router_server_dashbo.Base.Dict.insert llm_router_server_dashbo.Base.Dict.remove
    llm_router_server_dashbo.Router.Load.compute_load_score
    llm_router_server_dashbo.Router.Strategies.pick_least_load
selects_b = refl

select_instance-IsRoutable_example : IsRoutable first_env busy_app request_m instance_b
select_instance-IsRoutable_example =
    select_instance-IsRoutable first_env busy_app request_m instance_b selects_b

select_instance-Ends_example :
    any (is_servable busy_app request_m) (instance_a ∷ instance_b ∷ []) ≡ true
unfolding select_instance llm_router_server_dashbo.Router.Score.is_instance_sleeping
    llm_router_server_dashbo.Router.Score.cached_metric llm_router_server_dashbo.Base.Dict.lookup
select_instance-Ends_example = select_instance-Ends first_env busy_app request_m

abbrev target_s : Target
target_s = record target_m { model_cfg = group_s }

abbrev adapter : Target
adapter = record target_s { forward_name = "adapter"; is_lora = true }

serves_adapter : resolve_model self_fallback "adapter" ≡ some adapter
unfolding resolve_model llm_router_server_dashbo.Router.Lora.find_lora
    llm_router_server_dashbo.Router.Lora.lora_names llm_router_server_dashbo.Router.Lora.engine_kind
    llm_router_server_dashbo.Base.Dict.lookup
serves_adapter = refl
