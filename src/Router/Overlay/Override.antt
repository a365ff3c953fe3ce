-- ===== src/Router/Overlay/Override.antt =====
-- How an overlay's group changes one of the base.
use llm_router_server_dashbo.Base.{◌≡◌, String, Option, none, some, List, [], ◌++◌, or_default}
use llm_router_server_dashbo.Base.Dict.{Dict, lookup, HasDistinctKeys}
use llm_router_server_dashbo.Router.Overlay.{RawInstance, RawGroup, idx_by_id}
use llm_router_server_dashbo.Router.Overlay.Ids.{ids, new_ids}
use llm_router_server_dashbo.Router.Overlay.Bodies.{over, find_instance}

module _ {J : Type 0} where
  abbrev pub settings : RawGroup J → Dict J
  settings g = or_default g.model_config []

  abbrev pub instances_of : RawGroup J → List (RawInstance J)
  instances_of g = or_default g.instances []

  -- A group as an entry of the overlay changes it.
  pub record IsOverride (base entry merged : RawGroup J) : Type 0 where
    pub config :
        (k : String)
        → lookup k (settings merged) ≡ over (lookup k (settings entry)) (lookup k (settings base))
    pub fallback : merged.fallback ≡ over entry.fallback base.fallback
    pub autoscale : merged.autoscale ≡ over entry.autoscale base.autoscale
    pub bodies :
        (iid : Option String)
        → find_instance iid (instances_of merged)
          ≡ over (find_instance iid (instances_of entry)) (find_instance iid (instances_of base))
    pub instances :
        ids (instances_of merged)
        ≡ ids (instances_of base)
          ++ new_ids (idx_by_id 0 (instances_of base)) (ids (instances_of entry))

  abbrev pub IsLayered : Option (RawGroup J) → Option (RawGroup J) → Option (RawGroup J) → Type 0
  IsLayered base none merged = merged ≡ base
  IsLayered none (some entry) merged = merged ≡ some entry
  IsLayered (some base) (some entry) merged =
      (g : RawGroup J) × (merged ≡ some g) × IsOverride base entry g

  abbrev pub HasDistinctSettings : Option (RawGroup J) → Type 0
  HasDistinctSettings none = Unit
  HasDistinctSettings (some entry) = HasDistinctKeys (settings entry)
