-- ===== src/Router/Scrape.antt =====
-- The text that an engine's `/metrics` answers, and what the router reads in it: parse_metrics,
-- _parse_metric_line, fetch and to_dict of apps/router-server/src/llm_router/vllm_metrics_client.py. A float
-- is a value of any type `F`, which `float` reads from its literal. Of the decimal digits that `\d`
-- stands for, those of ASCII are modelled.
pub mod Numeral
pub mod Exposition
pub mod Numbers
pub mod Readback
use Prim.Native.Char.{code}
use Prim.Native.String
use llm_router_server_dashbo.Base.{
  ℕ, ◌+◌, String, Bool, true, false, not, ◌&&◌, ◌||◌, Option, none, some, List, [], ◌∷◌, ◌==◌, leb,
  if◌then◌else◌, or_default, is_some, str_eq,
}
use llm_router_server_dashbo.Base.Dict.{Dict, lookup, insert}
use llm_router_server_dashbo.Router.Load.{Load, finite, Metrics, unreachable}

-- str.isspace, and `\s`
abbrev pub is_space : ℕ → Bool
is_space c =
    (leb 9 c && leb c 13)
    || ((leb 28 c && leb c 32)
        || (c == 133
            || (c == 160
                || (c == 5760
                    || ((leb 8192 c && leb c 8202)
                        || (c == 8232
                            || (c == 8233 || (c == 8239 || (c == 8287 || c == 12288)))))))))

-- Where str.splitlines cuts.
abbrev pub is_break : ℕ → Bool
is_break c =
    (leb 10 c && leb c 13) || ((leb 28 c && leb c 30) || (c == 133 || (c == 8232 || c == 8233)))

abbrev pub is_digit : ℕ → Bool
is_digit c = leb 48 c && leb c 57

-- [a-zA-Z_:]
abbrev pub is_name_start : ℕ → Bool
is_name_start c = (leb 97 c && leb c 122) || ((leb 65 c && leb c 90) || (c == 95 || c == 58))

abbrev pub is_name_char : ℕ → Bool
is_name_char c = is_name_start c || is_digit c

abbrev pub all_chars : (ℕ → Bool) → String → Bool
all_chars p String.[] = true
all_chars p (String.◌∷◌ c s) = p (code c) && all_chars p s

-- The longest start of a text whose characters pass, and the rest.
unfoldable pub span : (ℕ → Bool) → String → String × String
span p String.[] = ("", "")
span p (String.◌∷◌ c s) =
    let (taken, rest) = span p s in
    if p (code c) then (String.◌∷◌ c taken, rest) else ("", String.◌∷◌ c s)

abbrev pub is_nil : String → Bool
is_nil String.[] = true
is_nil (String.◌∷◌ c s) = false

-- The text behind its first character, if that one passes.
abbrev pub after_char : (ℕ → Bool) → String → Option String
after_char p String.[] = none
after_char p (String.◌∷◌ c s) = if p (code c) then some s else none

-- s.strip()
unfoldable pub lstrip : String → String
lstrip String.[] = ""
lstrip (String.◌∷◌ c s) = let rest = lstrip s in if is_space (code c) then rest else String.◌∷◌ c s

unfoldable pub rstrip : String → String
rstrip String.[] = ""
rstrip (String.◌∷◌ c s) =
    let rest = rstrip s in if is_nil rest && is_space (code c) then "" else String.◌∷◌ c rest

-- s.splitlines(), with an empty line more between the two characters of a "\r\n" and at the end; the loop
-- passes over empty lines.
abbrev pub onto_first : Prim.Native.Char.Char → List String → List String
onto_first c [] = String.◌∷◌ c "" ∷ []
onto_first c (line ∷ rest) = String.◌∷◌ c line ∷ rest

unfoldable pub split_lines : String → List String
split_lines String.[] = "" ∷ []
split_lines (String.◌∷◌ c s) =
    let rest = split_lines s in if is_break (code c) then "" ∷ rest else onto_first c rest

abbrev pub is_sign : ℕ → Bool
is_sign c = c == 43 || c == 45

-- [-+]?
abbrev pub skip_sign : String → String
skip_sign s = or_default (after_char is_sign s) s

-- \d+ up to the end
abbrev pub only_digits : String × String → Bool
only_digits (digits, rest) = not (is_nil digits) && is_nil rest

-- (?:[eE][-+]?\d+)?$
unfoldable pub is_exponent : String → Bool
unfolding span
is_exponent s = elim (after_char (λ c. c == 101 || c == 69) s) [
  | none ↦ is_nil s
  | some rest ↦ only_digits (span is_digit (skip_sign rest))
]

abbrev pub digits_then_exponent : String × String → Bool
digits_then_exponent (digits, rest) = not (is_nil digits) && is_exponent rest

-- \d*\.?\d+ and the exponent: digits behind a point if there is one, and else those before it.
abbrev pub behind_digits : String × String → Bool
behind_digits (digits, rest) = elim (after_char (λ c. c == 46) rest) [
  | none ↦ digits_then_exponent (digits, rest)
  | some fraction ↦ digits_then_exponent (span is_digit fraction)
]

unfoldable pub is_number : String → Bool
unfolding span is_exponent
is_number s = behind_digits (span is_digit (skip_sign s))

-- (\{[^}]*\})?: the text behind the labels. An open brace that is never closed stays, and no space fits it.
abbrev pub behind_brace : String → String × String → String
behind_brace s (labels, rest) = or_default (after_char (λ c. c == 125) rest) s

unfoldable pub skip_labels : String → String
unfolding span
skip_labels s = elim (after_char (λ c. c == 123) s) [
  | none ↦ s
  | some inside ↦ behind_brace s (span (λ c. not (c == 125)) inside)
]

-- \s+ and the value
abbrev pub value_behind : String × String → Option String
value_behind (spaces, rest) = if not (is_nil spaces) && is_number rest then some rest else none

abbrev pub named : Prim.Native.Char.Char → String → Option String → Option (String × String)
named c taken none = none
named c taken (some literal) = some (String.◌∷◌ c taken, literal)

abbrev pub name_and_value : Prim.Native.Char.Char → String × String → Option (String × String)
name_and_value c (taken, rest) = named c taken (value_behind (span is_space (skip_labels rest)))

-- The name of a metric and the literal of its value.
unfoldable pub parse_metric_line : String → Option (String × String)
unfolding span skip_labels is_number
parse_metric_line String.[] = none
parse_metric_line (String.◌∷◌ c s) =
    if is_name_start (code c) then name_and_value c (span is_name_char s) else none

module _ {F : Type 0} (zero_value : F) (add : F → F → F) (float : String → F) where
  abbrev pub add_sample : Dict F → Option (String × String) → Dict F
  add_sample values none = values
  add_sample values (some (name, literal)) =
      insert name (add (or_default (lookup name values) zero_value) (float literal)) values

  abbrev pub is_comment : String → Bool
  is_comment s = is_some (after_char (λ c. c == 35) s)

  -- One round of the loop.
  unfoldable pub on_line : String → Dict F → Dict F
  unfolding lstrip rstrip parse_metric_line
  on_line raw values =
      let line = rstrip (lstrip raw) in
      if is_nil line || is_comment line then values else add_sample values (parse_metric_line line)

  unfoldable pub on_lines : List String → Dict F → Dict F
  unfolding on_line
  on_lines [] values = values
  on_lines (line ∷ lines) values = on_lines lines (on_line line values)

  unfoldable pub parse_metrics : String → Dict F
  unfolding on_lines split_lines
  parse_metrics text = on_lines (split_lines text) []

-- METRIC_NAMES_BY_ENGINE
pub record MetricNames : Type 0 where
  pub running : String
  pub waiting : String
  pub kv_cache_usage_perc : String
  pub prompt_tokens : String
  pub generation_tokens : String

abbrev pub vllm_names : MetricNames
vllm_names = record {
  running = "vllm:num_requests_running";
  waiting = "vllm:num_requests_waiting";
  kv_cache_usage_perc = "vllm:kv_cache_usage_perc";
  prompt_tokens = "vllm:prompt_tokens";
  generation_tokens = "vllm:generation_tokens";
}

abbrev pub sglang_names : MetricNames
sglang_names = record {
  running = "sglang:num_running_reqs";
  waiting = "sglang:num_queue_reqs";
  kv_cache_usage_perc = "sglang:token_usage";
  prompt_tokens = "sglang:prompt_tokens_total";
  generation_tokens = "sglang:generation_tokens_total";
}

-- An engine that has no names of its own takes vLLM's.
abbrev pub names_of : String → MetricNames
names_of engine = if str_eq engine "sglang" then sglang_names else vllm_names

module _ (float : String → ℕ) where
  abbrev pub value_at : Dict ℕ → String → Load
  value_at parsed name = finite (or_default (lookup name parsed) 0)

  abbrev pub metrics_of : String → MetricNames → String → Dict ℕ → Metrics
  metrics_of base_url names raw parsed = record {
    base_url = base_url;
    running = value_at parsed names.running;
    waiting = value_at parsed names.waiting;
    kv_cache_usage_perc = value_at parsed names.kv_cache_usage_perc;
    prompt_tokens = value_at parsed names.prompt_tokens;
    generation_tokens = value_at parsed names.generation_tokens;
    raw_metrics = some raw;
    is_sleeping = false;
  }

  -- fetch and _safe_fetch, of the text of an answer, or none where the request failed. A value counts in
  -- thousandths.
  unfoldable pub safe_fetch : Option String → String → String → Metrics
  unfolding parse_metrics
  safe_fetch none base_url engine = unreachable base_url
  safe_fetch (some answer) base_url engine =
      metrics_of base_url (names_of engine) answer (parse_metrics 0 (λ a b. a + b) float answer)
