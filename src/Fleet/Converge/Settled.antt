-- ===== src/Fleet/Converge/Settled.antt =====
-- A pass brings an instance to where the next pass leaves it alone.
use llm_router_server_dashbo.Base.{ℕ, inr, ◌≡◌, refl, true, none, arith}
use llm_router_server_dashbo.Fleet.State.{
  ModelState, stopped, starting, ready, sleeping, failed, stopping, Desired, want_running,
  want_asleep, want_stopped,
}
use llm_router_server_dashbo.Fleet.Instance.{Instance, set_state, touch}
use llm_router_server_dashbo.Fleet.Manager.{
  begin_start, claim_start, finish_start, begin_stop, finish_stop, begin_sleep, finish_sleep,
  begin_wake, finish_wake,
}
use llm_router_server_dashbo.Fleet.Converge.{action_for, carry_out}

carry_out-settles_at :
    (now pid : ℕ) (want : Desired) (state : ModelState) (inst : Instance)
    → inst.state ≡ state
    → inst.managed ≡ true
    → inst.sleep_enabled ≡ true
    → action_for want
        (carry_out now
          (record { spawned = inr pid; called = true })
          (action_for want state)
          inst).state
      ≡ none
unfolding carry_out begin_start claim_start finish_start begin_stop finish_stop begin_sleep
    finish_sleep begin_wake finish_wake set_state touch
carry_out-settles_at now pid want_running stopped inst e m s = ground (arith, e, m, s)
carry_out-settles_at now pid want_stopped ready inst e m s = ground (arith, e, m, s)
carry_out-settles_at now pid want_stopped starting inst e m s = ground (arith, e, m, s)
carry_out-settles_at now pid want_stopped sleeping inst e m s = ground (arith, e, m, s)
carry_out-settles_at now pid want_asleep ready inst e m s = ground (arith, e, m, s)
carry_out-settles_at now pid want_running sleeping inst e m s = ground (arith, e, m, s)
carry_out-settles_at now pid want_running starting inst e m s = rw e refl
carry_out-settles_at now pid want_running ready inst e m s = rw e refl
carry_out-settles_at now pid want_running failed inst e m s = rw e refl
carry_out-settles_at now pid want_running stopping inst e m s = rw e refl
carry_out-settles_at now pid want_asleep stopped inst e m s = rw e refl
carry_out-settles_at now pid want_asleep starting inst e m s = rw e refl
carry_out-settles_at now pid want_asleep sleeping inst e m s = rw e refl
carry_out-settles_at now pid want_asleep failed inst e m s = rw e refl
carry_out-settles_at now pid want_asleep stopping inst e m s = rw e refl
carry_out-settles_at now pid want_stopped stopped inst e m s = rw e refl
carry_out-settles_at now pid want_stopped failed inst e m s = rw e refl
carry_out-settles_at now pid want_stopped stopping inst e m s = rw e refl

-- Where the process is spawned and the engine answers, an instance that is managed and can sleep needs at
-- most one action for any wanted state: after it, a pass has nothing to do until the state changes. So the
-- passes neither repeat an action nor undo one another's.
pub carry_out-settles :
    (now pid : ℕ) (want : Desired) (inst : Instance)
    → inst.managed ≡ true
    → inst.sleep_enabled ≡ true
    → action_for want
        (carry_out now
          (record { spawned = inr pid; called = true })
          (action_for want inst.state)
          inst).state
      ≡ none
carry_out-settles now pid want inst m s = carry_out-settles_at now pid want inst.state inst refl m s
