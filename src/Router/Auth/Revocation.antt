-- ===== src/Router/Auth/Revocation.antt =====
-- How long a revoked key passes.
use llm_router_server_dashbo.Base.{
  ℕ, ◌+◌, ◌≤◌, ◌<◌, ◌≡◌, ◌≢◌, refl, sym, String, Bool, true, false, not, ◌&&◌, Option, none, some,
  ltb, arith, if-intro, str_eq, inl, inr, ◌⊎◌, eq_iff, subst, and_parts,
}
use llm_router_server_dashbo.Base.Dict.{lookup}
use llm_router_server_dashbo.Router.Http.{HttpException, Result, raised}
use llm_router_server_dashbo.Router.Auth.{ApiKey, Operator, CachedKey, AuthState, Store, cache_ttl}
use llm_router_server_dashbo.Router.Auth.Access.{
  Presented, Verdict, is_viewer, as_operator, found_key, look_up_in, look_up, from_cache, by_hash,
  by_bearer, by_session, authenticate,
}
use llm_router_server_dashbo.Router.Auth.Sourced.{IsActive, IsSourced}

module _ (store : Store) (now : ℕ) where
  module _ (p : Presented) (known : p.store ≡ some store) where
    -- A refusal with 401 or 403.
    abbrev pub IsRefused : Result (Option String) → Type 0
    IsRefused r =
        (e : HttpException) × (r ≡ raised e) × ((e.status_code ≡ 401) ⊎ (e.status_code ≡ 403))

    -- No active key or operator within a cache lifetime.
    abbrev pub IsRevoked : String → Type 0
    IsRevoked h = (t : ℕ) → t ≤ now → now < t + cache_ttl → IsActive store t h → ⊥

    as_operator-IsRefused :
        (st : AuthState) (h : String) (o : Option Operator)
        → IsRevoked h
        → store.get_active_operator_by_hash now h ≡ o
        → IsRefused (as_operator now st h o).0
    unfolding as_operator
    as_operator-IsRefused st h none revoked e = (_, refl, inl refl)
    as_operator-IsRefused st h (some op) revoked e =
        if-intro (λ (v : Verdict). IsRefused v.0) (is_viewer op) _ _ (λ _. (_, refl, inr refl))
          (λ runs. absurd (revoked now (omega arith) (omega arith) (inr (op, e, runs))))

    found_key-IsRefused :
        (st : AuthState) (h : String) (o : Option ApiKey)
        → IsRevoked h
        → store.get_active_api_key_by_hash now h ≡ o
        → IsRefused (found_key now p store st h o).0
    unfolding found_key
    found_key-IsRefused st h none revoked e = as_operator-IsRefused st h _ revoked refl
    found_key-IsRefused st h (some key) revoked e =
        absurd (revoked now (omega arith) (omega arith) (inl (key, e)))

    look_up-IsRefused :
        (st : AuthState) (h : String) → IsRevoked h → IsRefused (look_up now p st h).0
    unfolding look_up look_up_in
    look_up-IsRefused st h revoked =
        subst (λ o. IsRefused (look_up_in now p st h o).0) (sym known)
          (found_key-IsRefused st h _ revoked refl)

    from_cache-IsRefused :
        (st : AuthState) (h : String) (o : Option CachedKey)
        → IsSourced store now st
        → lookup h st.cache ≡ o
        → IsRevoked h
        → IsRefused (from_cache now p st h o).0
    unfolding from_cache
    from_cache-IsRefused st h none s e revoked = look_up-IsRefused st h revoked
    from_cache-IsRefused st h (some c) s e revoked =
        if-intro (λ (v : Verdict). IsRefused v.0) (ltb now c.expires_at) _ _
          (λ live.
            let (t, past, expires, active) = s.source h c e in
            absurd (revoked t past (ground (arith, live, expires)) active))
          (λ _. look_up-IsRefused st h revoked)

    -- Revocation takes effect within 30 seconds, where keys are required and the request has no session
    -- of the dashboard: a bearer token that is not the admin token and has been neither an active key nor
    -- a non-viewer operator's for that long is refused with 401 or 403.
    pub authenticate-IsRefused :
        (st : AuthState) (token : String)
        → IsSourced store now st
        → p.require_enabled ≡ true
        → p.session ≡ none
        → p.bearer ≡ some token
        → token ≢ p.admin
        → IsRevoked (p.hash_key token)
        → IsRefused (authenticate now p st).0
    unfolding authenticate by_session by_bearer by_hash
    authenticate-IsRefused st token s required no_session presented other revoked =
        if-intro (λ (v : Verdict). IsRefused v.0) p.require_enabled _ _
          (λ _.
            subst (λ o. IsRefused (by_session now p st o).0) (sym no_session)
              (subst (λ o. IsRefused (by_bearer now p st o).0) (sym presented)
                (if-intro (λ (v : Verdict). IsRefused v.0) (str_eq token "") _ _
                  (λ _. (_, refl, inl refl))
                  (λ _.
                    if-intro (λ (v : Verdict). IsRefused v.0)
                      (not (str_eq p.admin "") && str_eq token p.admin) _ _
                      (λ admin. absurd (other ((eq_iff token p.admin).0 (and_parts _ _ admin).1)))
                      (λ _. from_cache-IsRefused st (p.hash_key token) _ s refl revoked)))))
          (λ off. absurd (on_and_off p.require_enabled required off))
      where
        on_and_off : (b : Bool) → b ≡ true → b ≡ false → ⊥
        on_and_off b x y = cc
