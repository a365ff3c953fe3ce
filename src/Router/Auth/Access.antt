-- ===== src/Router/Auth/Access.antt =====
-- `authenticate` of auth.py.
use llm_router_server_dashbo.Base.{
  ℕ, ◌+◌, String, Bool, false, not, ◌&&◌, Option, none, some, ltb, if◌then◌else◌, str_eq,
}
use llm_router_server_dashbo.Base.Dict.{lookup, insert}
use llm_router_server_dashbo.Router.Http.{Result, ok, raised, http_error}
use llm_router_server_dashbo.Router.Auth.{
  ApiKey, Operator, CachedKey, AuthState, Store, cache_ttl, check_rate, check_quota,
}

-- What the environment and the request present: whether keys are required, the admin token, sha256,
-- the calendar, the store, the session's actor and role, and the bearer token.
pub record Presented : Type 0 where
  pub require_enabled : Bool
  pub admin : String
  pub hash_key : String → String
  pub calendar : String → ℕ
  pub store : Option Store
  pub session : Option (String × String)
  pub bearer : Option String

abbrev pub Verdict : Type 0
Verdict = Result (Option String) × AuthState

-- The first of the two verdicts that raised, else the key's name.
unfoldable pub first_raised :
    String → Result {0} Unit → AuthState → Result {0} Unit → AuthState → Verdict
first_raised name (raised e) st' quota st'' = (raised e, st')
first_raised name (ok _) st' (raised e) st'' = (raised e, st'')
first_raised name (ok _) st' (ok _) st'' = (ok (some name), st'')

-- _check_rate, then _check_quota, then the key's name
unfoldable pub check_limits : ℕ → Presented → AuthState → ApiKey → Verdict
unfolding first_raised
check_limits now p st key =
    let (rate, st') = check_rate now st key.name key.rpm_limit in
    let (quota, st'') =
      check_quota now p.store p.calendar st' key.name key.token_quota key.quota_period in
    first_raised key.name rate st' quota st''

abbrev pub remember : ℕ → String → ApiKey → AuthState → AuthState
remember now key_hash key st = record st {
  cache = insert key_hash (record { key = key; expires_at = now + cache_ttl }) st.cache;
}

abbrev pub unlimited : String → ApiKey
unlimited label = record { name = label; rpm_limit = none; token_quota = none; quota_period = none }

abbrev pub is_viewer : Operator → Bool
is_viewer op = elim op.role [ none ↦ false | some role ↦ str_eq role "viewer" ]

-- A token that is no API key may be an operator's.
unfoldable pub as_operator : ℕ → AuthState → String → Option Operator → Verdict
as_operator now st key_hash none = (raised (http_error 401 "invalid or revoked API key"), st)
as_operator now st key_hash (some op) =
    if is_viewer op
    then (raised (http_error 403 "viewer role cannot run inference"), st)
    else (ok (some op.label), remember now key_hash (unlimited op.label) st)

unfoldable pub found_key : ℕ → Presented → Store → AuthState → String → Option ApiKey → Verdict
unfolding as_operator check_limits
found_key now p store st key_hash none =
    as_operator now st key_hash (store.get_active_operator_by_hash now key_hash)
found_key now p store st key_hash (some key) = check_limits now p (remember now key_hash key st) key

-- Without a store no key is known.
unfoldable pub look_up_in : ℕ → Presented → AuthState → String → Option Store → Verdict
unfolding found_key
look_up_in now p st key_hash none = as_operator now st key_hash none
look_up_in now p st key_hash (some store) =
    found_key now p store st key_hash (store.get_active_api_key_by_hash now key_hash)

unfoldable pub look_up : ℕ → Presented → AuthState → String → Verdict
unfolding look_up_in
look_up now p st key_hash = look_up_in now p st key_hash p.store

-- cached and cached[5] > now
unfoldable pub from_cache : ℕ → Presented → AuthState → String → Option CachedKey → Verdict
unfolding look_up
from_cache now p st key_hash none = look_up now p st key_hash
from_cache now p st key_hash (some c) =
    if ltb now c.expires_at then check_limits now p st c.key else look_up now p st key_hash

unfoldable pub by_hash : ℕ → Presented → AuthState → String → Verdict
unfolding from_cache
by_hash now p st key_hash = from_cache now p st key_hash (lookup key_hash st.cache)

unfoldable pub by_bearer : ℕ → Presented → AuthState → Option String → Verdict
unfolding by_hash
by_bearer now p st none = (raised (http_error 401 "missing API key"), st)
by_bearer now p st (some token) =
    if str_eq token ""
    then (raised (http_error 401 "missing API key"), st)
    else if not (str_eq p.admin "") && str_eq token p.admin
    then (ok (some "dashboard"), st)
    else by_hash now p st (p.hash_key token)

-- A session's actor may run inference unless it is a viewer.
unfoldable pub by_session : ℕ → Presented → AuthState → Option (String × String) → Verdict
unfolding by_bearer
by_session now p st none = by_bearer now p st p.bearer
by_session now p st (some (actor, role)) =
    if str_eq role "viewer"
    then (raised (http_error 403 "viewer role cannot run inference"), st)
    else (ok (some actor), st)

unfoldable pub authenticate : ℕ → Presented → AuthState → Verdict
unfolding by_session
authenticate now p st = if p.require_enabled then by_session now p st p.session else (ok none, st)
