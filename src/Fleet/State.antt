-- ===== src/Fleet/State.antt =====
-- apps/backend/app/llmops/state.py: the vocabulary of the model lifecycle.
use llm_router_server_dashbo.Base.{Bool, true, false}

pub data ModelState : Type 0 where
  stopped starting ready sleeping failed stopping : ModelState

pub data ModelKind : Type 0 where
  llm embedding : ModelKind

-- What the user asked for.
pub data Desired : Type 0 where
  want_running want_asleep want_stopped : Desired

abbrev pub is_stopped : ModelState → Bool
is_stopped stopped = true
is_stopped _ = false

abbrev pub is_ready : ModelState → Bool
is_ready ready = true
is_ready _ = false

abbrev pub is_sleeping : ModelState → Bool
is_sleeping sleeping = true
is_sleeping _ = false

abbrev pub is_starting : ModelState → Bool
is_starting starting = true
is_starting _ = false

abbrev pub is_failed : ModelState → Bool
is_failed failed = true
is_failed _ = false

abbrev pub is_stopping : ModelState → Bool
is_stopping stopping = true
is_stopping _ = false

abbrev pub wants_running : Desired → Bool
wants_running want_running = true
wants_running _ = false
