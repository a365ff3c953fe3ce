-- ===== src/Router/Select.antt =====
-- `select_instance` of apps/router-server/src/llm_router/routing_strategies.py. The clock is read
-- once for a whole call.
pub mod Picked
pub mod Spec
use Prim.Native.String.{◌++◌}
use llm_router_server_dashbo.Base.{
  ℕ, String, Bool, true, false, not, Option, none, some, List, [], ◌∷◌, any, filter, or_default,
  if◌then◌else◌, str_eq,
}
use llm_router_server_dashbo.Router.Http.{Result, ok, raised, http_error}
use llm_router_server_dashbo.Router.State.{App, is_draining}
use llm_router_server_dashbo.Router.Score.{Instance, is_instance_sleeping}
use llm_router_server_dashbo.Router.Strategies.{
  Env, Strategy, least_load, strategy_of_name, SelectContext, run_strategy,
}

-- The arguments of one call besides the state.
pub record Request : Type 0 where
  pub model_key : String
  pub instances : List Instance
  pub strategy : Option String
  pub exclude : List String
  pub session_key : Option String
  pub prompt_prefix : Option String

-- i["id"] in exclude
abbrev pub is_excluded : List String → Instance → Bool
is_excluded exclude i = any (λ e. str_eq e i.id) exclude

-- [i for i in candidates if not is_draining(app, model_key, i["id"])], which may drop expired marks
unfoldable pub drop_draining : ℕ → App → String → List Instance → List Instance × App
drop_draining now app model_key [] = ([], app)
drop_draining now app model_key (i ∷ rest) =
    let (drained, app') = is_draining now app model_key i.id in
    let (kept, app'') = drop_draining now app' model_key rest in
    (if drained then kept else i ∷ kept, app'')

-- An unknown name, like a missing one, is DEFAULT_STRATEGY.
unfoldable pub strategy_or_default : Option String → Strategy
strategy_or_default none = least_load
strategy_or_default (some name) = or_default (strategy_of_name name) least_load

-- The rest of the call once the candidates are known.
unfoldable pub pick : Env → App → Request → Instance → List Instance → Instance × App
pick env app req only [] = (only, app)
pick env app req first (second ∷ others) =
    run_strategy (strategy_or_default req.strategy) env app (record {
      model_key = req.model_key;
      first = first;
      others = second ∷ others;
      all_instances = req.instances;
      session_key = req.session_key;
      prompt_prefix = req.prompt_prefix;
    })

-- Draining instances are dropped only if another candidate remains.
unfoldable pub pick_undrained :
    Env → Request → Instance → List Instance → List Instance × App → Instance × App
pick_undrained env req first others ([], app) = pick env app req first others
pick_undrained env req first others (x ∷ xs, app) = pick env app req x xs

unfoldable pub select_awake : Env → App → Request → List Instance → Result Instance × App
unfolding pick_undrained
select_awake env app req [] = (
  raised (http_error 503 (("All instances of model '" ++ req.model_key) ++ "' are asleep.")),
  app,
)
select_awake env app req (first ∷ others) =
    let (chosen, app') =
      pick_undrained env req first others
        (drop_draining env.now app req.model_key (first ∷ others)) in
    (ok chosen, app')

unfoldable pub select_candidate : Env → App → Request → List Instance → Result Instance × App
unfolding select_awake
select_candidate env app req [] = (
  raised (http_error 503 (("No remaining instance to try for model '" ++ req.model_key) ++ "'.")),
  app,
)
select_candidate env app req (first ∷ others) =
    select_awake env app req
      (filter (λ i. not (is_instance_sleeping app req.model_key i.id)) (first ∷ others))

unfoldable pub select_from : Env → App → Request → List Instance → Result Instance × App
unfolding select_candidate
select_from env app req [] = (
  raised (http_error 500 (("Model '" ++ req.model_key) ++ "' has no instances configured.")),
  app,
)
select_from env app req (first ∷ others) =
    select_candidate env app req (filter (λ i. not (is_excluded req.exclude i)) (first ∷ others))

unfoldable pub select_instance : Env → App → Request → Result Instance × App
unfolding select_from
select_instance env app req = select_from env app req req.instances
