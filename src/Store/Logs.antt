-- ===== src/Store/Logs.antt =====
-- The log of requests in packages/llmops-store/llmops_store.py: request_logs as its rows, the newest first, with the sums
-- that the quotas and the costs are taken from, and the percentiles of the latencies.
pub mod Sums
pub mod Percentile
use llm_router_server_dashbo.Base.{
  ℕ, suc, ◌+◌, ◌-◌, ◌*◌, ◌/◌, ◌%◌, min, max, String, Bool, true, false, not, ◌&&◌, ◌||◌, Option,
  none, some, is_some, List, [], ◌∷◌, filter, length, get_or, or_default, ltb, leb, ◌==◌, str_eq,
  if◌then◌else◌,
}

pub record RequestRow : Type 0 where
  pub id : ℕ
  pub ts : ℕ
  pub model_key : String
  pub instance_id : Option String
  pub path : String
  pub status_code : Option ℕ
  pub latency_ms : Option ℕ
  pub prompt_tokens : Option ℕ
  pub completion_tokens : Option ℕ
  pub total_tokens : Option ℕ
  pub error : Option String
  pub api_key_name : Option String

-- SUM leaves NULL out.
abbrev pub count_of : Option ℕ → ℕ
count_of tokens = or_default tokens 0

-- ts >= ?
abbrev pub is_since : Option ℕ → RequestRow → Bool
is_since none r = true
is_since (some since) r = leb since r.ts

-- ts <= ?
abbrev pub is_until : Option ℕ → RequestRow → Bool
is_until none r = true
is_until (some until) r = leb r.ts until

abbrev pub ts_window : Option ℕ → Option ℕ → RequestRow → Bool
ts_window since until r = is_since since r && is_until until r

-- api_key_name = ?
abbrev pub is_of_key : String → RequestRow → Bool
is_of_key name r = elim r.api_key_name [ none ↦ false | some n ↦ str_eq n name ]

abbrev pub total_of : List RequestRow → ℕ
total_of [] = 0
total_of (r ∷ rows) = count_of r.total_tokens + total_of rows

unfoldable pub tokens_used_by_key : String → Option ℕ → List RequestRow → ℕ
tokens_used_by_key name since rows =
    total_of (filter (λ r. is_of_key name r && is_since since r) rows)

pub record TokenUse : Type 0 where
  pub requests : ℕ
  pub prompt_tokens : ℕ
  pub completion_tokens : ℕ
  pub total_tokens : ℕ

abbrev pub no_use : TokenUse
no_use = record { requests = 0; prompt_tokens = 0; completion_tokens = 0; total_tokens = 0 }

abbrev pub count_row : RequestRow → TokenUse → TokenUse
count_row r u = record {
  requests = suc u.requests;
  prompt_tokens = count_of r.prompt_tokens + u.prompt_tokens;
  completion_tokens = count_of r.completion_tokens + u.completion_tokens;
  total_tokens = count_of r.total_tokens + u.total_tokens;
}

module _ {K : Type 0} (same : K → K → Bool) where
  -- The group of a key takes one more row.
  unfoldable pub into_group : K → RequestRow → List (K × TokenUse) → List (K × TokenUse)
  into_group k r [] = (k, count_row r no_use) ∷ []
  into_group k r ((j, u) ∷ groups) =
      if same j k then (j, count_row r u) ∷ groups else (j, u) ∷ into_group k r groups

  -- GROUP BY
  unfoldable pub group_by : (RequestRow → K) → List RequestRow → List (K × TokenUse)
  unfolding into_group
  group_by key [] = []
  group_by key (r ∷ rows) = into_group (key r) r (group_by key rows)

-- ORDER BY total_tokens DESC
unfoldable pub insert_by_total :
    {K : Type 0} → K × TokenUse → List (K × TokenUse) → List (K × TokenUse)
insert_by_total (k, u) [] = (k, u) ∷ []
insert_by_total (k, u) ((j, v) ∷ groups) =
    if leb v.total_tokens u.total_tokens
    then (k, u) ∷ (j, v) ∷ groups
    else (j, v) ∷ insert_by_total (k, u) groups

unfoldable pub by_total : {K : Type 0} → List (K × TokenUse) → List (K × TokenUse)
unfolding insert_by_total
by_total [] = []
by_total (g ∷ groups) = insert_by_total g (by_total groups)

unfoldable pub token_usage_by_model :
    Option ℕ → Option ℕ → List RequestRow → List (String × TokenUse)
unfolding group_by by_total
token_usage_by_model since until rows =
    by_total (group_by str_eq (λ r. r.model_key) (filter (ts_window since until) rows))

-- The name of the key with the model.
abbrev pub same_pair : String × String → String × String → Bool
same_pair (n, m) (n', m') = str_eq n n' && str_eq m m'

abbrev pub key_and_model : RequestRow → String × String
key_and_model r = (or_default r.api_key_name "", r.model_key)

unfoldable pub token_usage_by_key :
    Option ℕ → Option ℕ → List RequestRow → List ((String × String) × TokenUse)
unfolding group_by
token_usage_by_key since until rows =
    group_by same_pair key_and_model
      (filter (λ r. ts_window since until r && is_some r.api_key_name) rows)

-- sorted(values)
unfoldable pub insert_value : ℕ → List ℕ → List ℕ
insert_value v [] = v ∷ []
insert_value v (w ∷ values) = if leb v w then v ∷ w ∷ values else w ∷ insert_value v values

unfoldable pub sorted : List ℕ → List ℕ
unfolding insert_value
sorted [] = []
sorted (v ∷ values) = insert_value v (sorted values)

-- int(round(n / d)), halves to the even side
abbrev pub round_half_even : ℕ → ℕ → ℕ
round_half_even n d =
    let q = n / d in
    let twice = 2 * (n % d) in
    if ltb twice d then q else if ltb d twice then suc q else if q % 2 == 0 then q else suc q

-- The percentile is given in whole percents.
unfoldable pub percentile : List ℕ → ℕ → Option ℕ
unfolding sorted
percentile [] pct = none
percentile (v ∷ values) pct =
    let ordered = sorted (v ∷ values) in
    let top = length ordered - 1 in
    some (get_or ordered (min top (round_half_even (pct * top) 100)) v)
