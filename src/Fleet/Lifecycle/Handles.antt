-- ===== src/Fleet/Lifecycle/Handles.antt =====
-- The process handle of an instance, and what the end of its process leads to.
use llm_router_server_dashbo.Base.{
  ℕ, ◌+◌, ◌*◌, ◌^◌, String, Bool, true, false, ◌&&◌, ◌≡◌, refl, sym, ◌∙◌, subst, Option, none, some,
  if◌then◌else◌, if-intro, ltb, arith, Bool-cases, inl, inr,
}
use llm_router_server_dashbo.Fleet.State.{stopped, sleeping, failed, is_stopping, wants_running}
use llm_router_server_dashbo.Fleet.Instance.{Instance, Settings, Transition, set_state, touch}
use llm_router_server_dashbo.Fleet.Reconciler.{
  Signals, maybe_schedule_restart, on_exit, on_poll, check_process_exit, after_exit,
  reconcile_instance,
}
use llm_router_server_dashbo.Fleet.Manager.{claimed, claim_start, begin_start, finish_start}

-- The restart that a crash arms, if any.
abbrev pub armed : Settings → ℕ → Instance → Option ℕ
armed settings now inst =
    if wants_running inst.desired
      && (inst.managed && (settings.auto_restart && ltb inst.restart_count settings.max_restarts))
    then some (now + settings.restart_backoff_base * 2 ^ inst.restart_count)
    else inst.next_restart_at

module _ (settings : Settings) (sig : Signals) where
  schedule-armed :
      (inst : Instance)
      → (maybe_schedule_restart settings sig.now inst).next_restart_at ≡ armed settings sig.now inst
  unfolding maybe_schedule_restart
  schedule-armed inst =
      let b =
        wants_running inst.desired
        && (inst.managed
            && (settings.auto_restart && ltb inst.restart_count settings.max_restarts)) in
      ground arith

  schedule-keeps :
      (inst : Instance)
      → let next = maybe_schedule_restart settings sig.now inst in
        (next.proc ≡ inst.proc) × (next.pid ≡ inst.pid) × (next.state ≡ inst.state)
  unfolding maybe_schedule_restart
  schedule-keeps inst =
      if-intro
        (λ (i : Instance). (i.proc ≡ inst.proc) × (i.pid ≡ inst.pid) × (i.state ≡ inst.state))
        (wants_running inst.desired
          && (inst.managed
              && (settings.auto_restart && ltb inst.restart_count settings.max_restarts)))
        _ _ (λ _. (refl, refl, refl)) (λ _. (refl, refl, refl))

  -- What the end of the process makes of the instance.
  abbrev IsEnded : Instance → Instance → Type 0
  IsEnded inst next =
      (next.proc ≡ none)
      × (next.pid ≡ none)
      × (next.state ≡ (if is_stopping inst.state then stopped else failed))
      × (next.next_restart_at
          ≡ (if is_stopping inst.state then inst.next_restart_at else armed settings sig.now inst))

  crash-IsEnded :
      (inst x : Instance)
      → x.proc ≡ none
      → x.pid ≡ none
      → x.state ≡ failed
      → x.desired ≡ inst.desired
      → x.managed ≡ inst.managed
      → x.restart_count ≡ inst.restart_count
      → x.next_restart_at ≡ inst.next_restart_at
      → is_stopping inst.state ≡ false
      → let next = maybe_schedule_restart settings sig.now x in
        (next.proc ≡ none)
        × (next.pid ≡ none)
        × (next.state ≡ failed)
        × (next.next_restart_at ≡ armed settings sig.now inst)
  crash-IsEnded inst x proc pid state desired managed count next crashed =
      let (p, q, r) = schedule-keeps x in
      (p ∙ proc, q ∙ pid, r ∙ state, schedule-armed x ∙ simp (desired, managed, count, next) refl)

  on_exit-IsEnded :
      (inst : Instance) (rc : String)
      → IsEnded inst (after_exit settings sig (on_exit sig rc inst).0 (on_exit sig rc inst).1).0
  unfolding after_exit on_exit set_state touch
  on_exit-IsEnded inst rc = elim (Bool-cases (is_stopping inst.state)) [
    | inl stops ↦ simp stops (refl, refl, refl, refl)
    | inr crashed ↦ rw crashed (crash-IsEnded inst _ refl refl refl refl refl refl refl crashed)
  ]

  -- The end of a managed process is decisive: it drops the handle, and makes a stopping instance
  -- stopped and any other failed; a crash arms a restart after an exponential backoff where the
  -- instance is wanted, restarts are on and the budget is not spent, and a stop arms none.
  pub reconcile_instance-of_exit :
      (inst : Instance) (pid : ℕ) (rc : String)
      → inst.managed ≡ true
      → inst.proc ≡ some pid
      → sig.exit_code ≡ some rc
      → let next = (reconcile_instance settings sig inst).0 in
        (next.proc ≡ none)
        × (next.pid ≡ none)
        × (next.state ≡ (if is_stopping inst.state then stopped else failed))
        × (next.next_restart_at ≡ (
            if is_stopping inst.state then inst.next_restart_at else armed settings sig.now inst))
  unfolding reconcile_instance
  reconcile_instance-of_exit inst pid rc managed handle exited =
      let e : check_process_exit sig inst ≡ on_exit sig rc inst =
        unfold check_process_exit on_poll in simp (managed, handle, exited) refl in
      subst (λ (r : Instance × Option Transition). IsEnded inst (after_exit settings sig r.0 r.1).0)
        (sym e) (on_exit-IsEnded inst rc)

-- A start is not refused while the instance sleeps: the handle of its living process is replaced, and
-- nothing refers to that process any more.
pub begin_start-of_sleeping :
    (now later pid old : ℕ) (reset : Bool) (inst : Instance)
    → inst.state ≡ sleeping
    → inst.proc ≡ some old
    → (next : Instance) × (begin_start now reset inst ≡ claimed next)
      × (next.proc ≡ some old)
      × ((finish_start later pid next).proc ≡ some pid)
unfolding begin_start claim_start finish_start set_state touch
begin_start-of_sleeping now later pid old reset inst asleep handle =
    (claim_start now reset inst, simp asleep refl, handle, refl)
