-- ===== src/Fleet/Examples/Reports.antt =====
-- Runs of the cost report and of the load of the groups.
use llm_router_server_dashbo.Base.{
  ℕ, ◌+◌, ◌*◌, ◌≤◌, suc, ◌≡◌, refl, String, Bool, true, false, Option, none, some, List, [], ◌∷◌,
  arith, filter, length,
}
use llm_router_server_dashbo.Base.Dict.{Dict, lookup}
use llm_router_server_dashbo.Fleet.State.{llm, embedding, ready, sleeping}
use llm_router_server_dashbo.Fleet.Cost.{
  Price, UseRow, Defaults, prices_by_model, key_totals, build_summary,
}
use llm_router_server_dashbo.Fleet.Cost.Rounding.{cost_of_lines, build_summary-near}
use llm_router_server_dashbo.Fleet.LoadMonitor.{
  RegisteredInstance, InstanceMetrics, number, aggregate_load, partition,
}
use llm_router_server_dashbo.Fleet.LoadMonitor.Groups.{
  is_in, stats_or_none, load_of, lookup-aggregate_load,
}

abbrev prices : List Price
prices =
    record { model = "m"; input_price = 2_500_000; output_price = 10_000_000 }
    ∷ record { model = "n"; input_price = 1; output_price = 1 }
    ∷ []

abbrev defaults : Defaults
defaults = record { input_price = 0; output_price = 0 }

abbrev row : String → String → ℕ → UseRow
row name model tokens = record {
  name = name;
  model_key = model;
  requests = 1;
  prompt_tokens = tokens;
  completion_tokens = tokens;
  total_tokens = tokens + tokens;
}

abbrev by_model : List UseRow
by_model = row "" "m" 1_000 ∷ row "" "n" 300_000 ∷ row "" "o" 5 ∷ []

abbrev by_key : List UseRow
by_key = row "ann" "m" 400 ∷ row "bob" "m" 600 ∷ row "ann" "n" 300_000 ∷ []

build_summary-near_example :
    (2 * cost_of_lines (build_summary by_model by_key prices defaults "USD").by_model
      ≤ 2 * (build_summary by_model by_key prices defaults "USD").total_cost
        + suc (length by_model))
    × (2 * (build_summary by_model by_key prices defaults "USD").total_cost
        ≤ 2 * cost_of_lines (build_summary by_model by_key prices defaults "USD").by_model
          + suc (length by_model))
build_summary-near_example = build_summary-near by_model by_key prices defaults "USD"

-- The second line is 0.6 millionths, which is rounded up; the third has no price.
summary_run :
    ((build_summary by_model by_key prices defaults "USD").total_cost ≡ 12_501)
    × ((build_summary by_model by_key prices defaults "USD").any_unpriced ≡ true)
unfolding build_summary llm_router_server_dashbo.Fleet.Cost.rounded
    llm_router_server_dashbo.Fleet.Cost.total_cost llm_router_server_dashbo.Fleet.Cost.row_cost
    lookup llm_router_server_dashbo.Base.Dict.insert
summary_run = (refl, refl)

abbrev replicas : List RegisteredInstance
replicas =
    record { key = "m::a"; kind = llm; state = ready }
    ∷ record { key = "n::a"; kind = llm; state = ready }
    ∷ record { key = "m::b"; kind = llm; state = sleeping }
    ∷ record { key = "m::c"; kind = embedding; state = ready }
    ∷ record { key = "m::d"; kind = llm; state = ready }
    ∷ []

abbrev metrics : Dict (Dict InstanceMetrics)
metrics =
    (
      "m",
      ("a", record { waiting = number 4; running = number 2; kv_cache_usage_perc = number 50 })
          ∷ [],
    )
    ∷ []

lookup-aggregate_load_example :
    lookup "m" (aggregate_load replicas metrics)
    ≡ load_of (stats_or_none metrics (filter (is_in "m") replicas) none)
lookup-aggregate_load_example = lookup-aggregate_load metrics replicas "m"

partitions : (partition "m::a::b" ≡ ("m", "a::b")) × (partition "m" ≡ ("m", ""))
unfolding partition
partitions = (refl, refl)
