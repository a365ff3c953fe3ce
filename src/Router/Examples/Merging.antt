-- ===== src/Router/Examples/Merging.antt =====
-- Runs of the merge of dynamic models.
use llm_router_server_dashbo.Base.{ℕ, ◌≡◌, refl, String, none, some, List, [], ◌∷◌}
use llm_router_server_dashbo.Base.Dict.{Dict}
use llm_router_server_dashbo.Router.Overlay.{RawInstance, RawGroup, idx_by_id, merge_instances}

abbrev inst : String → ℕ → RawInstance ℕ
inst name port = record { id = some name; body = port }

abbrev base_instances : List (RawInstance ℕ)
base_instances = inst "a" 8001 ∷ inst "b" 8002 ∷ []

abbrev overlay_instances : List (RawInstance ℕ)
overlay_instances = inst "c" 8003 ∷ inst "a" 9001 ∷ []

abbrev base_group : RawGroup ℕ
base_group = record {
  model_config = some (("max_len", 4096) ∷ []);
  fallback = none;
  autoscale = none;
  instances = some base_instances;
}

abbrev overlay_group : RawGroup ℕ
overlay_group = record {
  model_config = some (("max_len", 8192) ∷ []);
  fallback = some 1;
  autoscale = none;
  instances = some overlay_instances;
}

abbrev engines : Dict (RawGroup ℕ)
engines = ("m", base_group) ∷ []

abbrev overlay : Dict (RawGroup ℕ)
overlay = ("n", overlay_group) ∷ ("m", overlay_group) ∷ []

merged_instances :
    merge_instances (idx_by_id 0 base_instances) base_instances overlay_instances
    ≡ inst "a" 9001 ∷ inst "b" 8002 ∷ inst "c" 8003 ∷ []
unfolding merge_instances idx_by_id llm_router_server_dashbo.Router.Overlay.set_at
merged_instances = refl

abbrev no_settings : Dict ℕ
no_settings = []

abbrev nothing : Dict (RawGroup ℕ)
nothing = []
