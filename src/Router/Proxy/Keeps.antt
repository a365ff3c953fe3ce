-- ===== src/Router/Proxy/Keeps.antt =====
-- Which operations leave the in-flight counts alone.
use llm_router_server_dashbo.Base.{
  ℕ, String, ◌≡◌, refl, ◌∙◌, ap, List, [], ◌∷◌, arith, if-intro, or_default,
}
use llm_router_server_dashbo.Base.Dict.{Dict, lookup}
use llm_router_server_dashbo.Router.State.{
  App, get_inflight, make_backend_key, is_draining, mark_backend_failure, mark_backend_success,
}
use llm_router_server_dashbo.Router.Score.{Instance}
use llm_router_server_dashbo.Router.Strategies.{
  Env, Strategy, SelectContext, run_strategy, pick_round_robin, round_robin,
}
use llm_router_server_dashbo.Router.Select.{
  Request, drop_draining, pick, pick_undrained, select_awake, select_candidate, select_from,
  select_instance,
}

-- Two states that hold the same in-flight dictionary.
abbrev pub SameInflight : App → App → Type 0
SameInflight a b = a.backend_inflight ≡ b.backend_inflight

pub get_inflight-of_same :
    (a b : App) (m i : String) → SameInflight a b → get_inflight a m i ≡ get_inflight b m i
unfolding get_inflight
get_inflight-of_same a b m i e =
    ap (λ (d : Dict ℕ). or_default (lookup (make_backend_key m i) d) 0) e

is_draining-SameInflight :
    (now : ℕ) (app : App) (m i : String) → SameInflight (is_draining now app m i).1 app
unfolding is_draining
is_draining-SameInflight now app m i = ground arith

drop_draining-SameInflight :
    (now : ℕ) (app : App) (m : String) (l : List Instance)
    → SameInflight (drop_draining now app m l).1 app
unfolding drop_draining
drop_draining-SameInflight now app m [] = refl
drop_draining-SameInflight now app m (i ∷ rest) =
    drop_draining-SameInflight now (is_draining now app m i.id).1 m rest
    ∙ is_draining-SameInflight now app m i.id

run_strategy-SameInflight :
    (st : Strategy) (env : Env) (app : App) (ctx : SelectContext)
    → SameInflight (run_strategy st env app ctx).1 app
unfolding run_strategy pick_round_robin
run_strategy-SameInflight round_robin env app ctx = refl
run_strategy-SameInflight _ env app ctx = refl

pick-SameInflight :
    (env : Env) (app : App) (req : Request) (x : Instance) (xs : List Instance)
    → SameInflight (pick env app req x xs).1 app
unfolding pick
pick-SameInflight env app req x [] = refl
pick-SameInflight env app req x (y ∷ ys) = run_strategy-SameInflight _ env app _

pick_undrained-SameInflight :
    (env : Env) (req : Request) (x : Instance) (xs kept : List Instance) (app : App)
    → SameInflight (pick_undrained env req x xs (kept, app)).1 app
unfolding pick_undrained
pick_undrained-SameInflight env req x xs [] app = pick-SameInflight env app req x xs
pick_undrained-SameInflight env req x xs (y ∷ ys) app = pick-SameInflight env app req y ys

select_awake-SameInflight :
    (env : Env) (app : App) (req : Request) (l : List Instance)
    → SameInflight (select_awake env app req l).1 app
unfolding select_awake
select_awake-SameInflight env app req [] = refl
select_awake-SameInflight env app req (x ∷ xs) =
    let (kept, app') = drop_draining env.now app req.model_key (x ∷ xs) in
    pick_undrained-SameInflight env req x xs kept app'
    ∙ drop_draining-SameInflight env.now app req.model_key (x ∷ xs)

select_candidate-SameInflight :
    (env : Env) (app : App) (req : Request) (l : List Instance)
    → SameInflight (select_candidate env app req l).1 app
unfolding select_candidate
select_candidate-SameInflight env app req [] = refl
select_candidate-SameInflight env app req (x ∷ xs) = select_awake-SameInflight env app req _

select_from-SameInflight :
    (env : Env) (app : App) (req : Request) (l : List Instance)
    → SameInflight (select_from env app req l).1 app
unfolding select_from
select_from-SameInflight env app req [] = refl
select_from-SameInflight env app req (x ∷ xs) = select_candidate-SameInflight env app req _

-- A selection changes no in-flight count.
pub select_instance-SameInflight :
    (env : Env) (app : App) (req : Request) → SameInflight (select_instance env app req).1 app
unfolding select_instance
select_instance-SameInflight env app req = select_from-SameInflight env app req req.instances

pub mark_backend_failure-SameInflight :
    (now : ℕ) (app : App) (m i e : String) (c : ℕ)
    → SameInflight (mark_backend_failure now app m i e c) app
unfolding mark_backend_failure
mark_backend_failure-SameInflight now app m i e c = refl

pub mark_backend_success-SameInflight :
    (app : App) (m i : String) → SameInflight (mark_backend_success app m i) app
unfolding mark_backend_success
mark_backend_success-SameInflight app m i =
    if-intro (λ a. SameInflight a app) _ _ _ (λ _. refl) (λ _. refl)
