-- ===== src/Router/Auth.antt =====
-- apps/router-server/src/llm_router/auth.py: API keys, their rate limits and their token quotas. Times
-- are milliseconds of one clock, read once for a whole call. The text of a 429 leaves its numbers out.
pub mod Access
pub mod Rate
pub mod Quota
pub mod Sourced
pub mod Revocation
pub mod Reference
use Prim.Native.String.{◌++◌}
use llm_router_server_dashbo.Base.{
  ℕ, zero, suc, ◌+◌, String, Bool, true, false, not, ◌&&◌, Option, none, some, List, [], ◌∷◌,
  ◌++◌ as append, length, leb, ltb, ◌==◌, if◌then◌else◌, or_default, str_eq, first_text,
}
use llm_router_server_dashbo.Base.Dict.{Dict, lookup, insert}
use llm_router_server_dashbo.Router.Http.{HttpException, Result, ok, raised, http_error}

-- A row of the API key table, and one of the operator table.
pub record ApiKey : Type 0 where
  pub name : String
  pub rpm_limit : Option ℕ
  pub token_quota : Option ℕ
  pub quota_period : Option String

pub record Operator : Type 0 where
  pub role : Option String
  pub label : String

-- An entry of `_cache`: an operator stands in it as a key without limits.
pub record CachedKey : Type 0 where
  pub key : ApiKey
  pub expires_at : ℕ

-- An entry of `_quota_cache`.
pub record CachedUse : Type 0 where
  pub used_tokens : ℕ
  pub period_start : ℕ
  pub expires_at : ℕ

-- The dictionaries of the module.
pub record AuthState : Type 0 where
  pub cache : Dict CachedKey
  pub hits : Dict (List ℕ)
  pub quota_cache : Dict CachedUse

-- The telemetry store at each time.
pub record Store : Type 0 where
  pub tokens_used_by_key : ℕ → String → ℕ → ℕ
  pub get_active_api_key_by_hash : ℕ → String → Option ApiKey
  pub get_active_operator_by_hash : ℕ → String → Option Operator

abbrev pub cache_ttl : ℕ
cache_ttl = 30_000

abbrev pub quota_ttl : ℕ
quota_ttl = 15_000

abbrev pub rate_window : ℕ
rate_window = 60_000

-- while dq and dq[0] <= now - 60.0: dq.popleft()
unfoldable pub expire : ℕ → List ℕ → List ℕ
expire now [] = []
expire now (t ∷ dq) = let rest = expire now dq in if leb (t + rate_window) now then rest else t ∷ dq

-- The limiter of one key with a limit: whether the request passes, and the timestamps kept.
unfoldable pub admit : ℕ → ℕ → List ℕ → Bool × List ℕ
unfolding expire
admit limit now dq =
    let kept = expire now dq in
    if leb limit (length kept) then (false, kept) else (true, append kept (now ∷ []))

too_many : String → Result {0} Unit
too_many name = raised (http_error 429 (("rate limit exceeded for key '" ++ name) ++ "'"))

-- A limit that is missing or 0 is none.
unfoldable pub check_rate : ℕ → AuthState → String → Option ℕ → Result {0} Unit × AuthState
unfolding admit too_many
check_rate now st name none = (ok tt, st)
check_rate now st name (some zero) = (ok tt, st)
check_rate now st name (some (suc n)) =
    let (passes, kept) = admit (suc n) now (or_default (lookup name st.hits) []) in
    let st' = record st { hits = insert name kept st.hits } in
    (if passes then ok tt else too_many name, st')

-- The start of the quota window; the calendar is a parameter.
unfoldable pub period_start : (String → ℕ) → Option String → ℕ
period_start calendar none = 0
period_start calendar (some period) =
    if str_eq period "daily"
    then calendar "daily"
    else if str_eq period "monthly"
    then calendar "monthly"
    else 0

-- cached and cached[1] == period_start and cached[2] > now
abbrev pub fresh_use : ℕ → ℕ → Option CachedUse → Option ℕ
fresh_use now start none = none
fresh_use now start (some c) =
    if (c.period_start == start) && ltb now c.expires_at then some c.used_tokens else none

-- A number that is missing is read from the store and remembered.
unfoldable pub use_or_count : ℕ → Store → AuthState → String → ℕ → Option ℕ → ℕ × AuthState
use_or_count now store st name start (some used) = (used, st)
use_or_count now store st name start none =
    let used = store.tokens_used_by_key now name start in
    (
      used,
      record st {
        quota_cache =
            insert name
              (record { used_tokens = used; period_start = start; expires_at = now + quota_ttl })
              st.quota_cache;
      },
    )

-- The tokens used so far, from the cache or the store.
unfoldable pub used_tokens_of : ℕ → Store → AuthState → String → ℕ → ℕ × AuthState
unfolding use_or_count
used_tokens_of now store st name start =
    use_or_count now store st name start (fresh_use now start (lookup name st.quota_cache))

abbrev pub over_quota : String → Result {0} Unit
over_quota name = raised (http_error 429 (("token quota exceeded for key '" ++ name) ++ "'"))

unfoldable pub check_quota :
    ℕ
    → Option Store
    → (String → ℕ)
    → AuthState
    → String
    → Option ℕ
    → Option String
    → Result {0} Unit × AuthState
unfolding used_tokens_of
check_quota now store calendar st name none period = (ok tt, st)
check_quota now store calendar st name (some zero) period = (ok tt, st)
check_quota now none calendar st name (some (suc n)) period = (ok tt, st)
check_quota now (some store) calendar st name (some (suc n)) period =
    let (used, st') = used_tokens_of now store st name (period_start calendar period) in
    (if leb (suc n) used then over_quota name else ok tt, st')

-- The claims of a session cookie, which a JWT library decodes.
pub record Claims : Type 0 where
  pub role : Option String
  pub email : Option String
  pub name : Option String
  pub sub : Option String

-- `_session_secret`: the explicit secret, or one derived from the admin token.
unfoldable pub session_secret : String → String → String
session_secret explicit admin =
    if str_eq explicit "" then (if str_eq admin "" then "" else "sess:" ++ admin) else explicit

abbrev pub actor_of : Claims → String
actor_of c = or_default (first_text c.email (first_text c.name (first_text c.sub none))) "sso"

unfoldable pub session_actor :
    (String → String → Option Claims) → String → String → Option (String × String)
session_actor decode cookie secret =
    if (str_eq cookie "")
    then none
    else if str_eq secret ""
    then none
    else elim (decode cookie secret) [
      | none ↦ none
      | some claims ↦ elim (first_text claims.role none) [
        | none ↦ none
        | some role ↦ some (actor_of claims, role)
      ]
    ]
