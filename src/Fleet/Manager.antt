-- ===== src/Fleet/Manager.antt =====
-- start, stop, sleep and wake of apps/backend/app/llmops/manager.py, for an instance whose engine this
-- node can run. Each is split where it lets go of the registry lock.
use Prim.Native.String.{◌++◌}
use llm_router_server_dashbo.Base.{
  ℕ, String, Bool, true, false, not, ◌&&◌, ◌||◌, none, some, is_some, if◌then◌else◌,
}
use llm_router_server_dashbo.Fleet.State.{
  stopped, starting, ready, sleeping, failed, stopping, want_running, want_asleep, want_stopped,
  is_ready, is_starting, is_sleeping,
}
use llm_router_server_dashbo.Fleet.Instance.{Instance, set_state, touch}

-- ModelAlreadyRunning and ModelConflict, or the instance after the locked part.
pub data Claim : Type 0 where
  already_running conflict : Claim
  claimed : Instance → Claim

unfoldable pub claim_start : ℕ → Bool → Instance → Instance
claim_start now reset_restart inst = set_state now starting (record inst {
  desired = want_running;
  managed = true;
  started_at = some now;
  ready_at = none;
  last_error = none;
  last_log_size = 0;
  last_progress_at = some now;
  restart_count = if reset_restart then 0 else inst.restart_count;
  next_restart_at = none;
})

unfoldable pub begin_start : ℕ → Bool → Instance → Claim
unfolding claim_start
begin_start now reset_restart inst =
    if is_starting inst.state || is_ready inst.state
    then already_running
    else claimed (claim_start now reset_restart inst)

-- The process runs.
unfoldable pub finish_start : ℕ → ℕ → Instance → Instance
finish_start now pid inst = touch now (record inst { proc = some pid; pid = some pid })

unfoldable pub fail_start : ℕ → String → Instance → Instance
fail_start now error inst =
    set_state now failed
      (record inst { managed = false; last_error = some ("spawn failed: " ++ error) })

-- The locked part of stop: a process of ours is to be stopped, or there is nothing to kill.
unfoldable pub begin_stop : ℕ → Instance → Instance
begin_stop now inst =
    let wanted = record inst { desired = want_stopped } in
    if is_some inst.proc && inst.managed
    then set_state now stopping wanted
    else if not inst.managed && is_ready inst.state
    then record wanted { last_error = some "externally managed; backend cannot stop it" }
    else set_state now stopped (record wanted { proc = none; pid = none })

-- The process group was terminated.
unfoldable pub finish_stop : ℕ → Instance → Instance
finish_stop now inst = set_state now stopped (record inst { proc = none; pid = none })

unfoldable pub begin_sleep : ℕ → Instance → Claim
begin_sleep now inst =
    if not inst.sleep_enabled
    then conflict
    else if is_ready inst.state
    then claimed (touch now (record inst { desired = want_asleep }))
    else conflict

unfoldable pub finish_sleep : ℕ → Bool → Instance → Instance
finish_sleep now called inst =
    if called
    then set_state now sleeping (record inst { last_error = none })
    else touch now (record inst { desired = want_running })

unfoldable pub begin_wake : ℕ → Instance → Claim
begin_wake now inst =
    if is_sleeping inst.state
    then claimed (touch now (record inst { desired = want_running }))
    else conflict

unfoldable pub finish_wake : ℕ → Bool → Instance → Instance
finish_wake now called inst =
    if called
    then set_state now ready (record inst { last_error = none })
    else touch now (record inst { desired = want_asleep })
