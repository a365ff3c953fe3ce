-- ===== src/Router/Lora.antt =====
-- apps/router-server/src/llm_router/lora.py: which group serves a requested name, and the groups to
-- fall back to.
pub mod Chain
use llm_router_server_dashbo.Base.{
  String, Bool, true, false, not, Option, none, some, List, [], ◌∷◌, ◌++◌, any, or_default,
  if◌then◌else◌, str_eq,
}
use llm_router_server_dashbo.Base.Dict.{Dict, lookup}
use llm_router_server_dashbo.Router.Config.{LoraModule, Group, Config}

-- The names of `_lora_modules`: an entry with no name, or an empty one, is left out.
unfoldable pub lora_names : List LoraModule → List String
lora_names [] = []
lora_names (m ∷ ms) =
    let rest = lora_names ms in
    elim m.name [ none ↦ rest | some name ↦ if str_eq name "" then rest else name ∷ rest ]

-- x or "chat"
abbrev kind_or_chat : Option String → String
kind_or_chat none = "chat"
kind_or_chat (some kind) = if str_eq kind "" then "chat" else kind

unfoldable pub engine_kind : Group → String
engine_kind engine = kind_or_chat engine.kind

pub record Target : Type 0 where
  pub route_key : String
  pub model_cfg : Group
  pub forward_name : String
  pub is_lora : Bool
  pub kind : String

-- The loop over the groups and their adapters: the first that serves the name.
unfoldable pub find_lora : String → Dict Group → Option Target
find_lora requested [] = none
find_lora requested ((group, eng) ∷ rest) =
    let later = find_lora requested rest in
    if any (λ name. str_eq name requested) (lora_names eng.lora_modules)
    then some (record {
      route_key = group;
      model_cfg = eng;
      forward_name = requested;
      is_lora = true;
      kind = engine_kind eng;
    })
    else later

unfoldable pub resolve_model : Config → String → Option Target
resolve_model config requested = elim (lookup requested config.llm_engines) [
  | some engine ↦ some (record {
    route_key = requested;
    model_cfg = engine;
    forward_name = or_default engine.model_tag requested;
    is_lora = false;
    kind = engine_kind engine;
  })
  | none ↦ find_lora requested config.llm_engines
]

-- The loop of `build_route_chain` over the fallback names; `seen` holds names and route keys.
unfoldable pub fallback_targets : Config → String → List String → List String → List Target
fallback_targets config kind seen [] = []
fallback_targets config kind seen (name ∷ names) =
    let skip = fallback_targets config kind seen names in
    if any (λ s. str_eq s name) seen then skip else elim (resolve_model config name) [
      | none ↦ skip
      | some target ↦
          let take = target ∷ fallback_targets config kind (target.route_key ∷ seen) names in
          if str_eq target.kind kind then take else skip
    ]

-- config["LLM_engines"].get(route_key, {}).get("fallback") or []
abbrev pub fallback_names : Config → String → List String
fallback_names config route_key = elim (lookup route_key config.llm_engines) [
  | none ↦ []
  | some engine ↦ engine.fallback
]

unfoldable pub build_route_chain : Config → Target → List Target
build_route_chain config primary =
    primary
    ∷ fallback_targets config primary.kind (primary.route_key ∷ [])
        (fallback_names config primary.route_key)

-- One entry of the `/v1/models` payload; `parent` is given for an adapter.
pub record ModelEntry : Type 0 where
  pub id : String
  pub parent : Option String
  pub kind : String

lora_entries : String → List String → List ModelEntry
lora_entries group [] = []
lora_entries group (name ∷ names) =
    record { id = name; parent = some group; kind = "chat" } ∷ lora_entries group names

iter_groups : Dict Group → List ModelEntry
iter_groups [] = []
iter_groups ((group, eng) ∷ rest) =
    record { id = group; parent = none; kind = engine_kind eng }
    ∷ (lora_entries group (lora_names eng.lora_modules) ++ iter_groups rest)

unfoldable pub iter_models : Config → List ModelEntry
unfolding iter_groups lora_entries
iter_models config = iter_groups config.llm_engines
