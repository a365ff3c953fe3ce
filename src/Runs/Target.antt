-- ===== src/Runs/Target.antt =====
-- What a run addresses: _resolve, which apps/backend/app/eval/manager.py and apps/backend/app/perf/manager.py share.
use llm_router_server_dashbo.Base.{
  ℕ, String, Bool, true, false, Option, none, some, List, [], ◌∷◌, any, or_default, ◌==◌, ◌&&◌,
  str_eq, if◌then◌else◌,
}
use llm_router_server_dashbo.Base.Dict.{Dict, lookup}
use Prim.Native.Char.{code}
use Prim.Native.String.{◌++◌}

pub record Engine : Type 0 where
  pub model_tag : String
  -- The names of `settings.lora_modules`.
  pub lora_modules : List (Option String)
  -- The ids of the instances, with their ports.
  pub instances : List (String × ℕ)

abbrev pub Engines : Type 0
Engines = Dict Engine

abbrev is_name : String → Option String → Bool
is_name name none = false
is_name name (some n) = str_eq n name

-- The first engine with an adapter of that name.
unfoldable pub lora_lookup : String → Engines → Option (String × Engine)
lora_lookup name [] = none
lora_lookup name ((key, engine) ∷ rest) =
    if any (is_name name) engine.lora_modules then some (key, engine) else lora_lookup name rest

-- (s or "").split("::")[-1]: the text behind the last cut, as the cuts are made from the left.
unfoldable pub last_segment : String → String → String
last_segment behind String.[] = behind
last_segment behind (String.◌∷◌ c String.[]) = behind
last_segment behind (String.◌∷◌ c (String.◌∷◌ d s)) =
    if code c == 58 && code d == 58 then last_segment s s else last_segment behind (String.◌∷◌ d s)

unfoldable pub find_port : String → List (String × ℕ) → Option ℕ
find_port id [] = none
find_port id ((i, port) ∷ rest) = if str_eq i id then some port else find_port id rest

-- The engine of a group or of an adapter, and whether it is an adapter's.
unfoldable pub find_engine : String → Engines → Option (Engine × Bool)
unfolding lora_lookup
find_engine group engines = elim (lookup group engines) [
  | some engine ↦ some (engine, false)
  | none ↦ elim (lora_lookup group engines) [
    | none ↦ none
    | some (key, engine) ↦ some (engine, true)
  ]
]

-- The name that the engine answers to, the base of its address and its tag; `none` is the manager's error.
-- The text of a port is a parameter.
unfoldable pub resolve :
    (ℕ → String)
    → String
    → Engines
    → String
    → String
    → Option String
    → Option (String × String × String)
unfolding find_engine last_segment find_port
resolve text router_url engines group target instance_key = elim (find_engine group engines) [
  | none ↦ none
  | some (engine, is_lora) ↦
      if str_eq target "instance"
      then elim (find_port (last_segment (or_default instance_key "") (or_default instance_key ""))
          engine.instances) [
            | none ↦ none
            | some port ↦ some (
              (if is_lora then group else engine.model_tag),
              "http://127.0.0.1:" ++ text port,
              engine.model_tag,
            )
          ]
      else some (group, router_url, engine.model_tag)
]
