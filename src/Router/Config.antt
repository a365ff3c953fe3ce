-- ===== src/Router/Config.antt =====
-- The merged configuration as the router reads it: the `LLM_engines` block, a dictionary of groups.
use llm_router_server_dashbo.Base.{String, Option, List}
use llm_router_server_dashbo.Base.Dict.{Dict}
use llm_router_server_dashbo.Router.Score.{Instance}

-- An entry of `model_config.lora_modules`; `name` is missing where the entry is no dict or has none.
pub record LoraModule : Type 0 where
  pub name : Option String

-- A group's entry, with the keys of its `model_config` that the router looks at.
pub record Group : Type 0 where
  pub instances : List Instance
  pub model_tag : Option String
  pub kind : Option String
  pub lora_modules : List LoraModule
  pub fallback : List String
  pub routing_strategy : Option String

pub record Config : Type 0 where
  pub llm_engines : Dict Group
