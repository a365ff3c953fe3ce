-- ===== src/Fleet/Cost/Rounding.antt =====
-- The rounded lines of the cost report against its total.
use llm_router_server_dashbo.Base.{ℕ, suc, ◌+◌, ◌*◌, ◌≤◌, String, List, [], ◌∷◌, map, length, arith}
use llm_router_server_dashbo.Base.Dict.{Dict}
use llm_router_server_dashbo.Fleet.Cost.{
  Price, UseRow, Defaults, ModelLine, rounded, row_cost, model_line, total_cost, prices_by_model,
  build_summary,
}

rounded-near :
    (cost : ℕ)
    → (2_000_000 * rounded cost ≤ 2 * cost + 1_000_000)
      × (2 * cost ≤ 2_000_000 * rounded cost + 1_000_000)
unfolding rounded
rounded-near cost = ground arith

abbrev pub cost_of_lines : List ModelLine → ℕ
cost_of_lines [] = 0
cost_of_lines (m ∷ lines) = m.cost + cost_of_lines lines

lines-near :
    (prices : Dict Price) (d : Defaults) (rows : List UseRow)
    → (2_000_000 * cost_of_lines (map (model_line prices d) rows)
        ≤ 2 * total_cost prices d rows + 1_000_000 * length rows)
      × (2 * total_cost prices d rows
          ≤ 2_000_000 * cost_of_lines (map (model_line prices d) rows) + 1_000_000 * length rows)
unfolding total_cost
lines-near prices d [] = (omega arith, omega arith)
lines-near prices d (row ∷ rows) =
    let (below, above) = rounded-near (row_cost prices d row) in
    let (low, high) = lines-near prices d rows in
    (omega (arith, below, low), omega (arith, above, high))

-- The lines of the models, each rounded for itself, add up to the total of the report within half a unit of the last
-- digit for each line and for the total.
pub build_summary-near :
    (by_model by_key : List UseRow) (prices : List Price) (d : Defaults) (currency : String)
    → (2 * cost_of_lines (build_summary by_model by_key prices d currency).by_model
        ≤ 2 * (build_summary by_model by_key prices d currency).total_cost + suc (length by_model))
      × (2 * (build_summary by_model by_key prices d currency).total_cost
          ≤ 2 * cost_of_lines (build_summary by_model by_key prices d currency).by_model
            + suc (length by_model))
unfolding build_summary
build_summary-near by_model by_key prices d currency =
    let found = prices_by_model prices [] in
    let (below, above) = rounded-near (total_cost found d by_model) in
    let (low, high) = lines-near found d by_model in
    (omega (arith, above, low), omega (arith, below, high))
