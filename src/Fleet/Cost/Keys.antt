-- ===== src/Fleet/Cost/Keys.antt =====
-- The costs of the keys in the cost report.
use llm_router_server_dashbo.Base.{
  ℕ, ◌+◌, ◌≡◌, refl, ap, ◌∙◌, String, Option, none, some, List, [], ◌∷◌, or_default, str_eq, eq_iff,
  if◌then◌else◌, arith, Bool-cases, inl, inr,
}
use llm_router_server_dashbo.Base.Dict.{Dict, lookup, lookup-insert}
use llm_router_server_dashbo.Fleet.Cost.{
  Price, UseRow, Defaults, row_cost, KeyLine, no_line, add_use, into_key, key_totals,
}

abbrev pub line_at : Option KeyLine → ℕ
line_at none = 0
line_at (some k) = k.cost

-- The costs of the rows of a key.
abbrev pub cost_of_name : Dict Price → Defaults → String → List UseRow → ℕ
cost_of_name prices d name [] = 0
cost_of_name prices d name (row ∷ rows) =
    let rest = cost_of_name prices d name rows in
    if str_eq row.name name then row_cost prices d row + rest else rest

line_at-add_use :
    (row : UseRow) (cost : ℕ) (name : String) (o : Option KeyLine)
    → (add_use row cost (or_default o (no_line name))).cost ≡ line_at o + cost
line_at-add_use row cost name none = refl
line_at-add_use row cost name (some k) = refl

into_key-cost :
    (prices : Dict Price) (d : Defaults) (row : UseRow) (name : String) (keys : Dict KeyLine)
    → line_at (lookup name (into_key prices d row keys)) ≡ (
        if str_eq row.name name
        then line_at (lookup name keys) + row_cost prices d row
        else line_at (lookup name keys))
unfolding into_key
into_key-cost prices d row name keys =
    let line =
      add_use row (row_cost prices d row) (or_default (lookup row.name keys) (no_line row.name)) in
    ap line_at (lookup-insert row.name name line keys) ∙ elim (Bool-cases (str_eq row.name name)) [
      | inl same ↦ rw same (
          line_at-add_use row (row_cost prices d row) row.name (lookup row.name keys)
          ∙ ap (λ n. line_at (lookup n keys) + row_cost prices d row)
              ((eq_iff row.name name).0 same))
      | inr other ↦ rw other refl
    ]

-- Each key of the cost report costs what its rows cost over all the models, each at the price of its model, however
-- the rows of the keys are mixed, beside what it had before.
pub key_totals-cost :
    (prices : Dict Price) (d : Defaults) (name : String) (rows : List UseRow) (keys : Dict KeyLine)
    → line_at (lookup name (key_totals prices d rows keys))
      ≡ line_at (lookup name keys) + cost_of_name prices d name rows
unfolding key_totals
key_totals-cost prices d name [] keys = omega arith
key_totals-cost prices d name (row ∷ rows) keys =
    key_totals-cost prices d name rows (into_key prices d row keys)
    ∙ ap (λ c. c + cost_of_name prices d name rows) (into_key-cost prices d row name keys)
    ∙ elim (Bool-cases (str_eq row.name name)) [
      | inl same ↦ rw same (omega arith)
      | inr other ↦ rw other refl
    ]
