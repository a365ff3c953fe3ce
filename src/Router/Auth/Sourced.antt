-- ===== src/Router/Auth/Sourced.antt =====
-- What the key cache of auth.py holds.
use llm_router_server_dashbo.Base.{
  ℕ, zero, suc, ◌+◌, ◌≤◌, ◌≡◌, refl, sym, ◌∙◌, ap, String, false, not, ◌&&◌, Option, none, some,
  ltb, arith, if-intro, or_default, str_eq, Bool-cases, inl, inr, ◌⊎◌, eq_iff, subst,
}
use llm_router_server_dashbo.Base.Dict.{lookup, lookup-insert}
use llm_router_server_dashbo.Router.Http.{Result, ok, raised}
use llm_router_server_dashbo.Router.Auth.{
  ApiKey, Operator, CachedKey, AuthState, Store, cache_ttl, check_rate, check_quota, used_tokens_of,
  use_or_count, fresh_use,
}
use llm_router_server_dashbo.Router.Auth.Access.{
  Presented, Verdict, check_limits, remember, unlimited, is_viewer, first_raised, as_operator,
  found_key, look_up_in, look_up, from_cache, by_hash, by_bearer, by_session, authenticate,
}

-- The hash stands for an active key, or for an operator who may run inference.
abbrev pub IsActive : Store → ℕ → String → Type 0
IsActive store t h =
    ((key : ApiKey) × (store.get_active_api_key_by_hash t h ≡ some key))
    ⊎ ((op : Operator) × (store.get_active_operator_by_hash t h ≡ some op) × (is_viewer op ≡ false))

-- Each entry of the key cache was active when it was read, a cache lifetime before it expires.
pub record IsSourced (store : Store) (now : ℕ) (st : AuthState) : Type 0 where
  pub source :
      (h : String) (c : CachedKey)
      → lookup h st.cache ≡ some c
      → (t : ℕ) × (t ≤ now) × (c.expires_at ≡ t + cache_ttl) × IsActive store t h

check_rate-cache :
    (now : ℕ) (st : AuthState) (name : String) (limit : Option ℕ)
    → (check_rate now st name limit).1.cache ≡ st.cache
unfolding check_rate
check_rate-cache now st name none = refl
check_rate-cache now st name (some zero) = refl
check_rate-cache now st name (some (suc n)) = refl

used_tokens_of-cache :
    (now : ℕ) (store : Store) (st : AuthState) (name : String) (start : ℕ)
    → (used_tokens_of now store st name start).1.cache ≡ st.cache
unfolding used_tokens_of
used_tokens_of-cache now store st name start = go (fresh_use now start (lookup name st.quota_cache))
  where
    go : (o : Option ℕ) → (use_or_count now store st name start o).1.cache ≡ st.cache
    go none = unfold use_or_count in refl
    go (some used) = unfold use_or_count in refl

check_quota-cache :
    (now : ℕ) (store : Option Store) (calendar : String → ℕ) (st : AuthState) (name : String)
    (quota : Option ℕ) (period : Option String)
    → (check_quota now store calendar st name quota period).1.cache ≡ st.cache
unfolding check_quota
check_quota-cache now store calendar st name none period = refl
check_quota-cache now store calendar st name (some zero) period = refl
check_quota-cache now none calendar st name (some (suc n)) period = refl
check_quota-cache now (some store) calendar st name (some (suc n)) period =
    used_tokens_of-cache now store st name _

first_raised-cache :
    (name : String) (rate quota : Result {0} Unit) (st st' st'' : AuthState)
    → st'.cache ≡ st.cache
    → st''.cache ≡ st.cache
    → (first_raised name rate st' quota st'').1.cache ≡ st.cache
unfolding first_raised
first_raised-cache name (raised e) quota st st' st'' h k = h
first_raised-cache name (ok _) (raised e) st st' st'' h k = k
first_raised-cache name (ok _) (ok _) st st' st'' h k = k

check_limits-cache :
    (now : ℕ) (p : Presented) (st : AuthState) (key : ApiKey)
    → (check_limits now p st key).1.cache ≡ st.cache
unfolding check_limits
check_limits-cache now p st key =
    let rate = check_rate-cache now st key.name key.rpm_limit in
    first_raised-cache key.name _ _ st _ _ rate (
      check_quota-cache now p.store p.calendar (check_rate now st key.name key.rpm_limit).1 key.name
        key.token_quota key.quota_period
      ∙ rate)

module _ (store : Store) (now : ℕ) where
  IsSourced-of_cache :
      (st st' : AuthState) → st'.cache ≡ st.cache → IsSourced store now st → IsSourced store now st'
  IsSourced-of_cache st st' e s = record {
    source = λ h c found. s.source h c (ap (lookup h) (sym e) ∙ found);
  }

  remember-IsSourced :
      (st : AuthState) (h : String) (key : ApiKey)
      → IsActive store now h
      → IsSourced store now st
      → IsSourced store now (remember now h key st)
  remember-IsSourced st h key active s = record {
    source = λ h' c found. elim (Bool-cases (str_eq h h')) [
      | inr other ↦ s.source h' c (sym (lookup-insert h h' _ st.cache ∙ rw other refl) ∙ found)
      | inl same ↦
          let entry : CachedKey = record { key = key; expires_at = now + cache_ttl } in
          let e : some entry ≡ some c =
            sym (lookup-insert h h' entry st.cache ∙ rw same refl) ∙ found in
          (
            now,
            omega arith,
            ap (λ (o : Option CachedKey). (or_default o entry).expires_at) (sym e),
            subst (IsActive store now) ((eq_iff h h').0 same) active,
          )
    ];
  }

  module _ (p : Presented) (known : p.store ≡ some store) where
    as_operator-IsSourced :
        (st : AuthState) (h : String) (o : Option Operator)
        → store.get_active_operator_by_hash now h ≡ o
        → IsSourced store now st
        → IsSourced store now (as_operator now st h o).1
    unfolding as_operator
    as_operator-IsSourced st h none e s = s
    as_operator-IsSourced st h (some op) e s =
        if-intro (λ (v : Verdict). IsSourced store now v.1) (is_viewer op) _ _ (λ _. s)
          (λ runs. remember-IsSourced st h (unlimited op.label) (inr (op, e, runs)) s)

    found_key-IsSourced :
        (st : AuthState) (h : String) (o : Option ApiKey)
        → store.get_active_api_key_by_hash now h ≡ o
        → IsSourced store now st
        → IsSourced store now (found_key now p store st h o).1
    unfolding found_key
    found_key-IsSourced st h none e s = as_operator-IsSourced st h _ refl s
    found_key-IsSourced st h (some key) e s =
        IsSourced-of_cache _ _ (check_limits-cache now p (remember now h key st) key)
          (remember-IsSourced st h key (inl (key, e)) s)

    look_up-IsSourced :
        (st : AuthState) (h : String)
        → IsSourced store now st
        → IsSourced store now (look_up now p st h).1
    unfolding look_up look_up_in
    look_up-IsSourced st h s =
        subst (λ o. IsSourced store now (look_up_in now p st h o).1) (sym known)
          (found_key-IsSourced st h _ refl s)

    from_cache-IsSourced :
        (st : AuthState) (h : String) (o : Option CachedKey)
        → IsSourced store now st
        → IsSourced store now (from_cache now p st h o).1
    unfolding from_cache
    from_cache-IsSourced st h none s = look_up-IsSourced st h s
    from_cache-IsSourced st h (some c) s =
        if-intro (λ (v : Verdict). IsSourced store now v.1) (ltb now c.expires_at) _ _
          (λ _. IsSourced-of_cache _ _ (check_limits-cache now p st c.key) s)
          (λ _. look_up-IsSourced st h s)

    by_bearer-IsSourced :
        (st : AuthState) (o : Option String)
        → IsSourced store now st
        → IsSourced store now (by_bearer now p st o).1
    unfolding by_bearer by_hash
    by_bearer-IsSourced st none s = s
    by_bearer-IsSourced st (some token) s =
        if-intro (λ (v : Verdict). IsSourced store now v.1) (str_eq token "") _ _ (λ _. s)
          (λ _.
            if-intro (λ (v : Verdict). IsSourced store now v.1)
              (not (str_eq p.admin "") && str_eq token p.admin) _ _ (λ _. s)
              (λ _. from_cache-IsSourced st (p.hash_key token) _ s))

    by_session-IsSourced :
        (st : AuthState) (o : Option (String × String))
        → IsSourced store now st
        → IsSourced store now (by_session now p st o).1
    unfolding by_session
    by_session-IsSourced st none s = by_bearer-IsSourced st p.bearer s
    by_session-IsSourced st (some (actor, role)) s =
        if-intro (λ (v : Verdict). IsSourced store now v.1) (str_eq role "viewer") _ _ (λ _. s)
          (λ _. s)

    -- Whatever a request presents, the key cache goes on holding only keys and operators that the
    -- store called active at most 30 seconds before their entry expires.
    pub authenticate-IsSourced :
        (st : AuthState) → IsSourced store now st → IsSourced store now (authenticate now p st).1
    unfolding authenticate
    authenticate-IsSourced st s =
        if-intro (λ (v : Verdict). IsSourced store now v.1) p.require_enabled _ _
          (λ _. by_session-IsSourced st p.session s) (λ _. s)
