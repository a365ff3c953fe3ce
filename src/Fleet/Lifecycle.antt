-- ===== src/Fleet/Lifecycle.antt =====
-- The lifecycle of one instance: what the reconciler and the manager do to it, one locked part after
-- another, in any order.
pub mod Reports
pub mod Counts
pub mod Budget
pub mod Handles
use llm_router_server_dashbo.Base.{ℕ, ◌+◌, String, Bool, true, false, ◌≡◌, Option, none, some}
use llm_router_server_dashbo.Fleet.State.{ModelState, is_ready}
use llm_router_server_dashbo.Fleet.Instance.{Instance, Settings, Transition}
use llm_router_server_dashbo.Fleet.Reconciler.{
  Signals, reconcile_instance, is_due, claim_restart, adopt,
}
use llm_router_server_dashbo.Fleet.Manager.{
  Claim, claimed, begin_start, finish_start, fail_start, begin_stop, finish_stop, begin_sleep,
  finish_sleep, begin_wake, finish_wake,
}

pub data Step (settings : Settings) : Instance → Instance → Type 0 where
  reconciled :
      (sig : Signals) (inst : Instance)
      → Step settings inst (reconcile_instance settings sig inst).0
  adopted : (sig : Signals) (inst : Instance) → Step settings inst (adopt sig inst).0
  -- a due restart: its entry, then a start that keeps the count
  restarted :
      (now : ℕ) (inst next : Instance)
      → is_due settings now inst ≡ true
      → begin_start now false (claim_restart inst) ≡ claimed next
      → Step settings inst next
  started :
      (now : ℕ) (inst next : Instance)
      → begin_start now true inst ≡ claimed next
      → Step settings inst next
  spawned : (now pid : ℕ) (inst : Instance) → Step settings inst (finish_start now pid inst)
  not_spawned :
      (now : ℕ) (e : String) (inst : Instance) → Step settings inst (fail_start now e inst)
  stop_begun : (now : ℕ) (inst : Instance) → Step settings inst (begin_stop now inst)
  stop_done : (now : ℕ) (inst : Instance) → Step settings inst (finish_stop now inst)
  sleep_begun :
      (now : ℕ) (inst next : Instance)
      → begin_sleep now inst ≡ claimed next
      → Step settings inst next
  sleep_done :
      (now : ℕ) (called : Bool) (inst : Instance)
      → Step settings inst (finish_sleep now called inst)
  wake_begun :
      (now : ℕ) (inst next : Instance)
      → begin_wake now inst ≡ claimed next
      → Step settings inst next
  wake_done :
      (now : ℕ) (called : Bool) (inst : Instance) → Step settings inst (finish_wake now called inst)

pub data Run (settings : Settings) : Instance → Instance → Type 0 where
  done : (inst : Instance) → Run settings inst inst
  step : {a b c : Instance} → Step settings a b → Run settings b c → Run settings a c
