-- ===== src/Router/Examples/Access.antt =====
-- Runs of the theorems on API keys: a key with a limit of two requests, and a revoked key.
use llm_router_server_dashbo.Base.{
  ℕ, ◌+◌, ◌≤◌, ◌<◌, ◌≡◌, ◌≢◌, refl, String, Bool, true, false, Option, none, some, List, [], ◌∷◌,
  arith, inl, inr, if◌then◌else◌, leb, eq_iff,
}
use llm_router_server_dashbo.Base.Dict.{lookup}
use llm_router_server_dashbo.Router.Auth.{AuthState, Store, cache_ttl}
use llm_router_server_dashbo.Router.Auth.Access.{Presented, authenticate}
use llm_router_server_dashbo.Router.Auth.Rate.{granted, hits_in, granted-bound}
use llm_router_server_dashbo.Router.Auth.Reference.{granted-reference}
use llm_router_server_dashbo.Router.Auth.Sourced.{IsActive, IsSourced, authenticate-IsSourced}
use llm_router_server_dashbo.Router.Auth.Revocation.{IsRefused, authenticate-IsRefused}

abbrev fresh_state : AuthState
fresh_state = record { cache = []; hits = []; quota_cache = [] }

-- every key may ask twice a minute
abbrev twice : String → Option ℕ
twice name = some 2

abbrev three_calls : List (String × ℕ)
three_calls = ("k", 1_000) ∷ ("k", 2_000) ∷ ("k", 3_000) ∷ []

granted-bound_example : hits_in 500 (granted twice fresh_state three_calls "k") ≤ 2
granted-bound_example =
    granted-bound twice "k" 1 fresh_state three_calls 0 500 refl refl
      (omega arith, (omega arith, (omega arith, tt)))

granted-reference_example : granted twice fresh_state three_calls "k" ≡ 1_000 ∷ 2_000 ∷ []
granted-reference_example =
    granted-reference twice "k" 1 fresh_state three_calls 0 refl refl
      (omega arith, (omega arith, (omega arith, tt)))

-- one key, active until 20 seconds, that has used 70 tokens
abbrev revoking : Store
revoking = record {
  tokens_used_by_key = λ _ _ _. 70;
  get_active_api_key_by_hash = λ t _.
      if leb t 20_000
      then some
          (record { name = "k"; rpm_limit = none; token_quota = some 50; quota_period = none })
      else none;
  get_active_operator_by_hash = λ _ _. none;
}

abbrev with_bearer : Presented
with_bearer = record {
  require_enabled = true;
  admin = "root";
  hash_key = λ token. token;
  calendar = λ _. 0;
  store = some revoking;
  session = none;
  bearer = some "secret";
}

nothing_kept {ℓ} : {V : Type ℓ} (h : String) (v : V) → lookup h [] ≡ some v → ⊥
unfolding llm_router_server_dashbo.Base.Dict.lookup
nothing_kept h v found = ground arith

revoked : (t : ℕ) → 60_000 < t + cache_ttl → IsActive revoking t "secret" → ⊥
revoked t recent (inl (key, e)) = ground arith
revoked t recent (inr (op, e, runs)) = ground arith

fresh_state-IsSourced : (now : ℕ) → IsSourced revoking now fresh_state
fresh_state-IsSourced now = record { source = λ h c found. absurd (nothing_kept h c found) }

authenticate-IsSourced_example :
    IsSourced revoking 10_000 (authenticate 10_000 with_bearer fresh_state).1
authenticate-IsSourced_example =
    authenticate-IsSourced revoking 10_000 with_bearer refl fresh_state
      (fresh_state-IsSourced 10_000)

authenticate-IsRefused_example :
    IsRefused revoking 60_000 with_bearer refl (authenticate 60_000 with_bearer fresh_state).0
authenticate-IsRefused_example =
    authenticate-IsRefused revoking 60_000 with_bearer refl fresh_state "secret"
      (fresh_state-IsSourced 60_000) refl refl refl
      (λ e. let same : false ≡ true = (eq_iff "secret" "root").1 e in cc)
      (λ t _ recent active. revoked t recent active)
