-- ===== src/Store/Logs/Sums.antt =====
-- The sums of the log under its groups.
use llm_router_server_dashbo.Base.{
  ℕ, ◌+◌, ◌≡◌, refl, sym, ap, ◌∙◌, String, Bool, true, false, ◌&&◌, Option, none, some, is_some,
  List, [], ◌∷◌, filter, or_default, leb, str_eq, eq_iff, if◌then◌else◌, arith, and_parts,
  filter-ext, Bool-cases, inl, inr,
}
use llm_router_server_dashbo.Store.Logs.{
  RequestRow, TokenUse, count_of, is_since, ts_window, is_of_key, total_of, tokens_used_by_key,
  into_group, group_by, insert_by_total, by_total, token_usage_by_model, same_pair, key_and_model,
  token_usage_by_key,
}

-- The tokens of the groups whose key passes.
abbrev pub tokens_where : {K : Type 0} → (K → Bool) → List (K × TokenUse) → ℕ
tokens_where w [] = 0
tokens_where w ((k, u) ∷ groups) =
    if w k then u.total_tokens + tokens_where w groups else tokens_where w groups

module _ {K : Type 0} (same : K → K → Bool) (w : K → Bool) where
  tokens-into_group :
      ((j k : K) → same j k ≡ true → w j ≡ w k)
      → (k : K) (r : RequestRow) (groups : List (K × TokenUse))
      → tokens_where w (into_group same k r groups)
        ≡ (if w k then count_of r.total_tokens + tokens_where w groups else tokens_where w groups)
  unfolding into_group
  tokens-into_group respects k r [] = elim (Bool-cases (w k)) [
    | inl passes ↦ rw passes (omega arith)
    | inr fails ↦ rw fails refl
  ]
  tokens-into_group respects k r ((j, u) ∷ groups) = elim (Bool-cases (same j k)) [
    | inl hit ↦ rw hit (rw (respects j k hit) (ground arith))
    | inr miss ↦ rw miss (rw (tokens-into_group respects k r groups) (ground arith))
  ]

  tokens-group_by :
      ((j k : K) → same j k ≡ true → w j ≡ w k)
      → (key : RequestRow → K) (rows : List RequestRow)
      → tokens_where w (group_by same key rows) ≡ total_of (filter (λ r. w (key r)) rows)
  unfolding group_by
  tokens-group_by respects key [] = refl
  tokens-group_by respects key (r ∷ rows) =
      tokens-into_group respects (key r) r (group_by same key rows)
      ∙ elim (Bool-cases (w (key r))) [
        | inl passes ↦
            rw passes (ap (λ t. count_of r.total_tokens + t) (tokens-group_by respects key rows))
        | inr fails ↦ rw fails (tokens-group_by respects key rows)
      ]

filter-filter :
    (p q : RequestRow → Bool) (rows : List RequestRow)
    → filter p (filter q rows) ≡ filter (λ r. q r && p r) rows
filter-filter p q [] = refl
filter-filter p q (r ∷ rows) = elim (Bool-cases (q r)) [
  | inl kept ↦ rw kept (elim (Bool-cases (p r)) [
    | inl hit ↦ rw hit (ap (λ rs. r ∷ rs) (filter-filter p q rows))
    | inr miss ↦ rw miss (filter-filter p q rows)
  ])
  | inr gone ↦ rw gone (filter-filter p q rows)
]

-- A row of a key is one that has a key, which is this one.
abbrev named : String → Option String → Bool
named name key = elim key [ none ↦ false | some n ↦ str_eq n name ]

alike-of_key :
    (name : String) (key : Option String) (b : Bool)
    → (named name key && b) ≡ (((b && true) && is_some key) && str_eq (or_default key "") name)
alike-of_key name none b = ground arith
alike-of_key name (some n) b = ground arith

alike :
    (name : String) (since : Option ℕ) (r : RequestRow)
    → (is_of_key name r && is_since since r)
      ≡ ((ts_window since none r && is_some r.api_key_name) && str_eq (key_and_model r).0 name)
alike name since r = alike-of_key name r.api_key_name (is_since since r)

-- The quota of a key counts exactly the tokens that the cost report has for it, over all its models, from the
-- same time on.
pub tokens_used_by_key-groups :
    (name : String) (since : Option ℕ) (rows : List RequestRow)
    → tokens_used_by_key name since rows
      ≡ tokens_where (λ k. str_eq k.0 name) (token_usage_by_key since none rows)
unfolding tokens_used_by_key token_usage_by_key
tokens_used_by_key-groups name since rows =
    ap total_of (
      filter-ext (λ r. is_of_key name r && is_since since r) both (λ r. alike name since r) rows
      ∙ sym (filter-filter (λ r. str_eq (key_and_model r).0 name) window rows))
    ∙ sym (
        tokens-group_by same_pair (λ k. str_eq k.0 name) same_name key_and_model
          (filter window rows))
  where
    window : RequestRow → Bool
    window r = ts_window since none r && is_some r.api_key_name

    both : RequestRow → Bool
    both r = window r && str_eq (key_and_model r).0 name

    same_name : (j k : String × String) → same_pair j k ≡ true → str_eq j.0 name ≡ str_eq k.0 name
    same_name j k e =
        ap (λ n. str_eq n name)
          ((eq_iff j.0 k.0).0 (and_parts (str_eq j.0 k.0) (str_eq j.1 k.1) e).0)

tokens-insert_by_total :
    {K : Type 0} (w : K → Bool) (k : K) (u : TokenUse) (groups : List (K × TokenUse))
    → tokens_where w (insert_by_total (k, u) groups)
      ≡ (if w k then u.total_tokens + tokens_where w groups else tokens_where w groups)
unfolding insert_by_total
tokens-insert_by_total w k u [] = refl
tokens-insert_by_total w k u ((j, v) ∷ groups) =
    elim (Bool-cases (leb v.total_tokens u.total_tokens)) [
      | inl before ↦ rw before refl
      | inr behind ↦ rw behind (rw (tokens-insert_by_total w k u groups) (ground arith))
    ]

tokens-by_total :
    {K : Type 0} (w : K → Bool) (groups : List (K × TokenUse))
    → tokens_where w (by_total groups) ≡ tokens_where w groups
unfolding by_total
tokens-by_total w [] = refl
tokens-by_total w ((k, u) ∷ groups) =
    tokens-insert_by_total w k u (by_total groups) ∙ rw (tokens-by_total w groups) refl

-- The report of the models leaves no token out and counts none twice: for every choice of models, its rows of
-- them add up to what the requests of the window that name them used.
pub token_usage_by_model-total :
    (w : String → Bool) (since until : Option ℕ) (rows : List RequestRow)
    → tokens_where w (token_usage_by_model since until rows)
      ≡ total_of (filter (λ r. w r.model_key) (filter (ts_window since until) rows))
unfolding token_usage_by_model
token_usage_by_model-total w since until rows =
    let windowed = filter (ts_window since until) rows in
    tokens-by_total w (group_by str_eq (λ r. r.model_key) windowed)
    ∙ tokens-group_by str_eq w (λ j k e. ap w ((eq_iff j k).0 e)) (λ r. r.model_key) windowed
