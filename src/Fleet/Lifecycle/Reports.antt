-- ===== src/Fleet/Lifecycle/Reports.antt =====
-- The transitions that the reconciler reports.
use llm_router_server_dashbo.Base.{
  ℕ, ◌+◌, String, true, false, ◌&&◌, ◌≡◌, refl, inl, inr, Option, none, some, is_some, if-intro,
  ltb, arith, or_default, sym, ◌∙◌, subst, Bool-cases,
}
use llm_router_server_dashbo.Fleet.State.{
  ModelState, stopped, starting, ready, sleeping, failed, stopping, is_failed, is_stopping,
}
use llm_router_server_dashbo.Fleet.Instance.{Instance, Settings, Transition, set_state, touch}
use llm_router_server_dashbo.Fleet.Reconciler.{
  Signals, maybe_schedule_restart, on_exit, on_poll, check_process_exit, on_ready, note_progress,
  progress_since, on_waiting, on_probe, after_exit, reconcile_instance,
}

-- The report is true: without one the state stays, else both states are named, in a pair that the
-- reconciler may report.
abbrev pub Allowed : ModelState → ModelState → Type 0
Allowed from stopped = from ≡ stopping
Allowed from ready = from ≡ starting
Allowed from failed = is_stopping from ≡ false
Allowed from starting = ⊥
Allowed from sleeping = ⊥
Allowed from stopping = ⊥

abbrev pub IsReport : Instance → Instance → Option Transition → Type 0
IsReport before after none = after.state ≡ before.state
IsReport before after (some t) =
    (t.from_state ≡ before.state) × (t.to_state ≡ after.state) × Allowed t.from_state t.to_state

is_stopping-only : (s : ModelState) → is_stopping s ≡ true → s ≡ stopping
is_stopping-only stopping h = refl
is_stopping-only stopped h = absurd (ground arith)
is_stopping-only starting h = absurd (ground arith)
is_stopping-only ready h = absurd (ground arith)
is_stopping-only sleeping h = absurd (ground arith)
is_stopping-only failed h = absurd (ground arith)

module _ (settings : Settings) (sig : Signals) where
  restart-state :
      (now : ℕ) (inst : Instance) → (maybe_schedule_restart settings now inst).state ≡ inst.state
  unfolding maybe_schedule_restart
  restart-state now inst =
      if-intro (λ (i : Instance). i.state ≡ inst.state) _ _ _ (λ _. refl) (λ _. refl)

  on_exit-IsReport :
      (rc : String) (inst : Instance)
      → IsReport inst (on_exit sig rc inst).0 (on_exit sig rc inst).1
  unfolding on_exit set_state touch
  on_exit-IsReport rc inst = elim (Bool-cases (is_stopping inst.state)) [
    | inl stops ↦ rw stops (refl, refl, is_stopping-only inst.state stops)
    | inr crashed ↦ rw crashed (refl, refl, crashed)
  ]

  on_waiting-IsReport :
      (inst : Instance)
      → inst.state ≡ starting
      → IsReport inst (on_waiting settings sig inst).0 (on_waiting settings sig inst).1
  unfolding on_waiting set_state touch
  on_waiting-IsReport inst e =
      let P : Instance × Option Transition → Type 0 = λ r. IsReport inst r.0 r.1 in
      if-intro P
        (ltb (progress_since sig.now (note_progress sig inst) + settings.start_timeout) sig.now) _ _
        (λ _. (sym e, sym (restart-state sig.now _), refl)) (λ _. noted-state)
    where
      noted-state : (note_progress sig inst).state ≡ inst.state
      noted-state =
          unfold note_progress in
          if-intro (λ (i : Instance). i.state ≡ inst.state)
            (ltb inst.last_log_size (or_default sig.log_size inst.last_log_size)) _ _ (λ _. refl)
            (λ _. refl)

  on_probe-IsReport :
      (inst : Instance) (s : ModelState)
      → inst.state ≡ s
      → IsReport inst (on_probe settings sig inst s).0 (on_probe settings sig inst s).1
  unfolding on_probe on_ready set_state touch
  on_probe-IsReport inst starting e =
      if-intro (λ (r : Instance × Option Transition). IsReport inst r.0 r.1) sig.probe_ok _ _
        (λ _. (sym e, refl, refl)) (λ _. on_waiting-IsReport inst e)
  on_probe-IsReport inst ready e =
      if-intro (λ (i : Instance). i.state ≡ inst.state) sig.probe_ok _ _ (λ _. refl) (λ _. refl)
  on_probe-IsReport inst stopped e = refl
  on_probe-IsReport inst sleeping e = refl
  on_probe-IsReport inst failed e = refl
  on_probe-IsReport inst stopping e = refl

  after_exit-IsReport :
      (before inst : Instance) (o : Option Transition)
      → (o ≡ none → inst ≡ before)
      → IsReport before inst o
      → IsReport before (after_exit settings sig inst o).0 (after_exit settings sig inst o).1
  unfolding after_exit
  after_exit-IsReport before inst none same report =
      subst
        (λ i.
          IsReport i (on_probe settings sig inst inst.state).0
            (on_probe settings sig inst inst.state).1)
        (same refl) (on_probe-IsReport inst inst.state refl)
  after_exit-IsReport before inst (some t) same (from, to, allowed) = (
    from,
    if-intro (λ (i : Instance). t.to_state ≡ i.state) (is_failed t.to_state) _ _
        (λ _. to ∙ sym (restart-state sig.now inst)) (λ _. to),
    allowed,
  )

  check_process_exit-IsReport :
      (inst : Instance)
      → IsReport inst (check_process_exit sig inst).0 (check_process_exit sig inst).1
        × ((check_process_exit sig inst).1 ≡ none → (check_process_exit sig inst).0 ≡ inst)
  unfolding check_process_exit
  check_process_exit-IsReport inst =
      let P : Instance × Option Transition → Type 0 =
        λ r. IsReport inst r.0 r.1 × (r.1 ≡ none → r.0 ≡ inst) in
      if-intro P (inst.managed && is_some inst.proc) _ _ (λ _. polled sig.exit_code)
        (λ _. (refl, λ _. refl))
    where
      polled :
          (o : Option String)
          → IsReport inst (on_poll sig inst o).0 (on_poll sig inst o).1
            × ((on_poll sig inst o).1 ≡ none → (on_poll sig inst o).0 ≡ inst)
      polled none = unfold on_poll in (refl, λ _. refl)
      polled (some rc) =
          unfold on_poll in (on_exit-IsReport rc inst, λ e. absurd (unfold on_exit in ground arith))

  -- A pass reports each change of an instance's state: without a report the state stays, and a report
  -- names the state before and the state after the pass. A report that names READY names STARTING before
  -- it, one that names STOPPED names STOPPING, and one that names FAILED any state but STOPPING: also
  -- FAILED itself, where the process of an instance that has failed exits. No report names another.
  pub reconcile_instance-IsReport :
      (inst : Instance)
      → IsReport inst
          (reconcile_instance settings sig inst).0
          (reconcile_instance settings sig inst).1
  unfolding reconcile_instance
  reconcile_instance-IsReport inst =
      let (report, same) = check_process_exit-IsReport inst in
      after_exit-IsReport inst (check_process_exit sig inst).0 (check_process_exit sig inst).1 same
        report
