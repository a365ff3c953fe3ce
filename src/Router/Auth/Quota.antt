-- ===== src/Router/Auth/Quota.antt =====
-- The token quota of `_check_quota`.
use llm_router_server_dashbo.Base.{
  ℕ, zero, suc, ◌+◌, ◌≤◌, ◌<◌, ◌≡◌, refl, sym, ◌∙◌, ap, String, Option, none, some, leb, arith,
  if◌then◌else◌, or_default, str_eq, Bool-cases, inl, inr, eq_iff, subst,
}
use llm_router_server_dashbo.Base.Dict.{lookup, insert, lookup-insert}
use llm_router_server_dashbo.Router.Http.{ok}
use llm_router_server_dashbo.Router.Auth.{
  CachedUse, AuthState, Store, quota_ttl, check_quota, period_start, used_tokens_of, use_or_count,
  fresh_use, over_quota,
}

module _ (store : Store) (now : ℕ) where
  -- Each entry is what the store counted for its period, a lifetime before it expires.
  pub record IsCounted (st : AuthState) : Type 0 where
    pub counted :
        (name : String) (c : CachedUse)
        → lookup name st.quota_cache ≡ some c
        → (t : ℕ) × (t ≤ now)
          × (c.expires_at ≡ t + quota_ttl)
          × (c.used_tokens ≡ store.tokens_used_by_key t name c.period_start)

  -- The number is what the store counted less than a lifetime ago.
  abbrev pub IsRecentCount : String → ℕ → ℕ → Type 0
  IsRecentCount name start used =
      (t : ℕ) × (t ≤ now) × (now < t + quota_ttl) × (used ≡ store.tokens_used_by_key t name start)

  abbrev pub counted_entry : String → ℕ → CachedUse
  counted_entry name start = record {
    used_tokens = store.tokens_used_by_key now name start;
    period_start = start;
    expires_at = now + quota_ttl;
  }

  insert-IsCounted :
      (st : AuthState) (name : String) (start : ℕ)
      → IsCounted st
      → IsCounted
          (record st { quota_cache = insert name (counted_entry name start) st.quota_cache })
  insert-IsCounted st name start s = record {
    counted = λ name' c found. elim (Bool-cases (str_eq name name')) [
      | inr other ↦
          s.counted name' c
            (sym (lookup-insert name name' _ st.quota_cache ∙ rw other refl) ∙ found)
      | inl same ↦
          let entry = counted_entry name start in
          let e : some entry ≡ some c =
            sym (lookup-insert name name' entry st.quota_cache ∙ rw same refl) ∙ found in
          let c_is : entry ≡ c = ap (λ (o : Option CachedUse). or_default o entry) e in
          subst
            (λ (d : CachedUse).
              (t : ℕ) × (t ≤ now)
              × (d.expires_at ≡ t + quota_ttl)
              × (d.used_tokens ≡ store.tokens_used_by_key t name' d.period_start))
            c_is
            (
              now,
              omega arith,
              refl,
              ap (λ k. store.tokens_used_by_key now k start) ((eq_iff name name').0 same),
            )
    ];
  }

  fresh_use-IsRecentCount :
      (name : String) (start used : ℕ) (st : AuthState) (o : Option CachedUse)
      → IsCounted st
      → lookup name st.quota_cache ≡ o
      → fresh_use now start o ≡ some used
      → IsRecentCount name start used
  fresh_use-IsRecentCount name start used st none s e fresh = absurd (ground arith)
  fresh_use-IsRecentCount name start used st (some c) s e fresh =
      let (t, past, expires, counted) = s.counted name c e in
      let here : (c.period_start ≡ start) × (now < c.expires_at) × (c.used_tokens ≡ used) =
        ground arith in
      (
        t,
        past,
        omega (arith, here.1, expires),
        sym here.2 ∙ counted ∙ ap (store.tokens_used_by_key t name) here.0,
      )

  use_or_count-IsRecentCount :
      (st : AuthState) (name : String) (start : ℕ) (o : Option ℕ)
      → IsCounted st
      → fresh_use now start (lookup name st.quota_cache) ≡ o
      → IsRecentCount name start (use_or_count now store st name start o).0
        × IsCounted (use_or_count now store st name start o).1
  unfolding use_or_count
  use_or_count-IsRecentCount st name start none s e =
      ((now, omega arith, omega arith, refl), insert-IsCounted st name start s)
  use_or_count-IsRecentCount st name start (some used) s e =
      (fresh_use-IsRecentCount name start used st _ s refl e, s)

  -- A quota is judged on what the store counted for the key and its period less than 15 seconds ago:
  -- 429 where that reaches the quota, else the request passes; and the cache goes on holding only
  -- such counts.
  pub check_quota-IsRecentCount :
      (calendar : String → ℕ) (st : AuthState) (name : String) (quota : ℕ) (period : Option String)
      → 1 ≤ quota
      → IsCounted st
      → let (verdict, st') = check_quota now (some store) calendar st name (some quota) period in
        ((used : ℕ) × IsRecentCount name (period_start calendar period) used
          × (verdict ≡ (if leb quota used then over_quota name else ok tt)))
        × IsCounted st'
  unfolding check_quota used_tokens_of
  check_quota-IsRecentCount calendar st name zero period positive s = absurd (omega arith)
  check_quota-IsRecentCount calendar st name (suc n) period positive s =
      let (recent, kept) =
        use_or_count-IsRecentCount st name (period_start calendar period) _ s refl in
      ((_, recent, refl), kept)
