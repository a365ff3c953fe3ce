-- ===== src/Router/Score.antt =====
-- The scores of apps/router-server/src/llm_router/routing_strategies.py.
pub mod Least
use llm_router_server_dashbo.Base.{
  ℕ, ◌+◌, ◌*◌, ◌^◌, String, Bool, false, Option, none, some, List, [], ◌∷◌, or_default,
  if◌then◌else◌,
}
use llm_router_server_dashbo.Base.Dict.{lookup}
use llm_router_server_dashbo.Router.Load.{Load, finite, ◌⊕◌, load_lt, Metrics, compute_load_score}
use llm_router_server_dashbo.Router.State.{App, get_inflight, is_backend_in_cooldown}

-- One entry of a group's `instances` list. `host` may be missing.
pub record Instance : Type 0 where
  pub id : String
  pub host : Option String
  pub port : ℕ

-- INFLIGHT_WEIGHT = 5.0 and FAIL_OPEN_PENALTY = 1e9, in thousandths.
abbrev pub inflight_weight : ℕ
inflight_weight = 5000

abbrev pub fail_open_penalty : ℕ
fail_open_penalty = 1_000_000_000_000

-- app.state.metrics_cache.get(model_key, {}).get(instance_id)
unfoldable pub cached_metric : App → String → String → Option Metrics
cached_metric app model_key instance_id =
    lookup instance_id (or_default (lookup model_key app.metrics_cache) [])

base_load : Option Metrics → Load
base_load none = finite 0
base_load (some metric) = compute_load_score metric

unfoldable pub cooldown_penalty : ℕ → App → String → String → Load
cooldown_penalty now app model_key instance_id =
    finite (if is_backend_in_cooldown now app model_key instance_id then fail_open_penalty else 0)

unfoldable pub score_instance : ℕ → App → String → Instance → Load
unfolding base_load
score_instance now app model_key instance =
    base_load (cached_metric app model_key instance.id)
    ⊕ finite (get_inflight app model_key instance.id * inflight_weight)
    ⊕ cooldown_penalty now app model_key instance.id

unfoldable pub is_instance_sleeping : App → String → String → Bool
is_instance_sleeping app model_key instance_id = elim (cached_metric app model_key instance_id) [
  | none ↦ false
  | some metric ↦ metric.is_sleeping
]

unfoldable pub inflight_score : ℕ → App → String → Instance → Load
inflight_score now app model_key instance =
    finite (get_inflight app model_key instance.id * inflight_weight)
    ⊕ cooldown_penalty now app model_key instance.id

-- The loop of `_least_by`: `best` so far, and the candidates that are left.
unfoldable pub least_by : (Instance → Load) → Instance → List Instance → Instance
least_by score best [] = best
least_by score best (inst ∷ rest) =
    least_by score (if load_lt (score inst) (score best) then inst else best) rest
