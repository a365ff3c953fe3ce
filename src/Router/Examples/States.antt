-- ===== src/Router/Examples/States.antt =====
-- Runs of the theorems on `app.state`.
use llm_router_server_dashbo.Base.{
  ℕ, ◌+◌, ◌≤◌, ◌<◌, ◌≡◌, refl, String, Bool, true, false, Option, none, some, List, [], ◌∷◌, All,
  arith, ltb, str_eq, if◌then◌else◌, length, get_or, ◌⊎◌, inl, inr, Memᴰ, map,
}
use llm_router_server_dashbo.Base.Dict.{Dict}
use llm_router_server_dashbo.Router.State.{make_backend_key, get_inflight}
use llm_router_server_dashbo.Router.State.Inflight.{begins, ends, run, get_inflight-run}
use llm_router_server_dashbo.Router.Examples.{busy_app}

get_inflight-run_example :
    get_inflight (run busy_app (begins "m" "a" ∷ ends "m" "b" ∷ ends "m" "a" ∷ [])) "m" "a" + 1
    ≡ 1 + 1
unfolding make_backend_key get_inflight llm_router_server_dashbo.Base.Dict.lookup
get_inflight-run_example =
    get_inflight-run busy_app (begins "m" "a" ∷ ends "m" "b" ∷ ends "m" "a" ∷ []) "m" "a" refl
      (refl, (refl, (refl, tt))) ((λ e. cc), ((λ e. omega arith), tt))
