-- ===== src/Fleet/Cost.antt =====
-- The cost report of apps/backend/app/services/cost.py. A price is counted in millionths of the currency for a million
-- tokens, so that the cost of a line is a whole number of their millionths; what floats add to that is left out.
pub mod Rounding
pub mod Keys
use llm_router_server_dashbo.Base.{
  ℕ, ◌+◌, ◌*◌, String, Bool, true, false, not, Option, none, some, is_some, List, [], ◌∷◌, any, map,
  or_default, leb, if◌then◌else◌,
}
use llm_router_server_dashbo.Base.Dict.{Dict, lookup, insert}
use llm_router_server_dashbo.Store.Logs.{round_half_even}

pub record Price : Type 0 where
  pub model : String
  pub input_price : ℕ
  pub output_price : ℕ

-- A row of the store's sums: of a model, or of a key and a model.
pub record UseRow : Type 0 where
  pub name : String
  pub model_key : String
  pub requests : ℕ
  pub prompt_tokens : ℕ
  pub completion_tokens : ℕ
  pub total_tokens : ℕ

pub record Defaults : Type 0 where
  pub input_price : ℕ
  pub output_price : ℕ

abbrev pub rate : Option Price → Defaults → ℕ × ℕ
rate none d = (d.input_price, d.output_price)
rate (some price) d = (price.input_price, price.output_price)

unfoldable pub line_cost : ℕ → ℕ → Option Price → Defaults → ℕ
line_cost prompt_tokens completion_tokens price d =
    let (pin, pout) = rate price d in prompt_tokens * pin + completion_tokens * pout

-- round(cost, 6)
unfoldable pub rounded : ℕ → ℕ
rounded cost = round_half_even cost 1_000_000

-- {p["model"]: p for p in prices}
unfoldable pub prices_by_model : List Price → Dict Price → Dict Price
prices_by_model [] found = found
prices_by_model (price ∷ prices) found = prices_by_model prices (insert price.model price found)

pub record ModelLine : Type 0 where
  pub model : String
  pub requests : ℕ
  pub prompt_tokens : ℕ
  pub completion_tokens : ℕ
  pub total_tokens : ℕ
  pub input_price : ℕ
  pub output_price : ℕ
  pub priced : Bool
  pub cost : ℕ

unfoldable pub row_cost : Dict Price → Defaults → UseRow → ℕ
unfolding line_cost
row_cost prices d row =
    line_cost row.prompt_tokens row.completion_tokens (lookup row.model_key prices) d

abbrev pub model_line : Dict Price → Defaults → UseRow → ModelLine
model_line prices d row = record {
  model = row.model_key;
  requests = row.requests;
  prompt_tokens = row.prompt_tokens;
  completion_tokens = row.completion_tokens;
  total_tokens = row.total_tokens;
  input_price = (rate (lookup row.model_key prices) d).0;
  output_price = (rate (lookup row.model_key prices) d).1;
  priced = is_some (lookup row.model_key prices);
  cost = rounded (row_cost prices d row);
}

-- total += cost
unfoldable pub total_cost : Dict Price → Defaults → List UseRow → ℕ
total_cost prices d [] = 0
total_cost prices d (row ∷ rows) = row_cost prices d row + total_cost prices d rows

pub record KeyLine : Type 0 where
  pub name : String
  pub requests : ℕ
  pub prompt_tokens : ℕ
  pub completion_tokens : ℕ
  pub total_tokens : ℕ
  pub cost : ℕ

abbrev pub no_line : String → KeyLine
no_line name = record {
  name = name;
  requests = 0;
  prompt_tokens = 0;
  completion_tokens = 0;
  total_tokens = 0;
  cost = 0;
}

abbrev pub add_use : UseRow → ℕ → KeyLine → KeyLine
add_use row cost k = record {
  name = k.name;
  requests = k.requests + row.requests;
  prompt_tokens = k.prompt_tokens + row.prompt_tokens;
  completion_tokens = k.completion_tokens + row.completion_tokens;
  total_tokens = k.total_tokens + row.total_tokens;
  cost = k.cost + cost;
}

-- k = keys.setdefault(name, ...) and its sums
unfoldable pub into_key : Dict Price → Defaults → UseRow → Dict KeyLine → Dict KeyLine
into_key prices d row keys =
    insert row.name
      (add_use row (row_cost prices d row) (or_default (lookup row.name keys) (no_line row.name)))
      keys

unfoldable pub key_totals : Dict Price → Defaults → List UseRow → Dict KeyLine → Dict KeyLine
unfolding into_key
key_totals prices d [] keys = keys
key_totals prices d (row ∷ rows) keys = key_totals prices d rows (into_key prices d row keys)

-- sorted(..., key=cost, reverse=True), which keeps the order of equals
unfoldable pub insert_by_cost : KeyLine → List KeyLine → List KeyLine
insert_by_cost k [] = k ∷ []
insert_by_cost k (j ∷ lines) =
    if leb j.cost k.cost then k ∷ j ∷ lines else j ∷ insert_by_cost k lines

-- The lines, each with its cost rounded.
unfoldable pub key_lines : Dict KeyLine → List KeyLine
unfolding insert_by_cost
key_lines [] = []
key_lines ((name, k) ∷ keys) = insert_by_cost (record k { cost = rounded k.cost }) (key_lines keys)

pub record Summary : Type 0 where
  pub currency : String
  pub total_cost : ℕ
  pub default_input_price : ℕ
  pub default_output_price : ℕ
  pub any_unpriced : Bool
  pub by_model : List ModelLine
  pub by_key : List KeyLine

unfoldable pub build_summary : List UseRow → List UseRow → List Price → Defaults → String → Summary
unfolding prices_by_model key_totals key_lines
build_summary by_model by_key prices d currency =
    let found = prices_by_model prices [] in
    let models = map (model_line found d) by_model in
    record {
      currency = currency;
      total_cost = rounded (total_cost found d by_model);
      default_input_price = d.input_price;
      default_output_price = d.output_price;
      any_unpriced = any (λ m. not m.priced) models;
      by_model = models;
      by_key = key_lines (key_totals found d by_key []);
    }
