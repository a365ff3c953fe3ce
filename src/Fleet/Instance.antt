-- ===== src/Fleet/Instance.antt =====
-- apps/backend/app/llmops/instance.py: the live record of one model instance, with the fields that its
-- lifecycle reads or writes. A process handle is its pid.
use llm_router_server_dashbo.Base.{ℕ, String, Bool, not, ◌&&◌, Option, some, if◌then◌else◌}
use llm_router_server_dashbo.Fleet.State.{ModelState, ModelKind, Desired, is_ready}

pub record Instance : Type 0 where
  pub key : String
  pub kind : ModelKind
  pub sleep_enabled : Bool
  pub has_log : Bool
  pub desired : Desired
  pub state : ModelState
  pub proc : Option ℕ
  pub managed : Bool
  pub pid : Option ℕ
  pub last_error : Option String
  pub started_at : Option ℕ
  pub ready_at : Option ℕ
  pub updated_at : ℕ
  pub restart_count : ℕ
  pub next_restart_at : Option ℕ
  pub was_failed : Bool
  pub last_log_size : ℕ
  pub last_progress_at : Option ℕ

pub record Settings : Type 0 where
  pub auto_restart : Bool
  pub max_restarts : ℕ
  pub restart_backoff_base : ℕ
  pub start_timeout : ℕ
  -- f"{settings.start_timeout:.0f}"
  pub start_timeout_text : String

unfoldable pub touch : ℕ → Instance → Instance
touch now inst = record inst { updated_at = now }

-- Entering READY stamps ready_at.
unfoldable pub set_state : ℕ → ModelState → Instance → Instance
unfolding touch
set_state now s inst = touch now (record inst {
  state = s;
  ready_at = if is_ready s && not (is_ready inst.state) then some now else inst.ready_at;
})

-- (instance, from_state, to_state, detail)
pub record Transition : Type 0 where
  pub from_state : ModelState
  pub to_state : ModelState
  pub detail : Option String
