-- ===== src/Fleet/Lifecycle/Counts.antt =====
-- What each operation does to the restart count.
use llm_router_server_dashbo.Base.{
  ℕ, ◌+◌, ◌<◌, String, Bool, true, false, not, ◌&&◌, ◌||◌, ◌≡◌, refl, ◌∙◌, ◌⊎◌, inl, inr, Option,
  none, some, is_some, or_default, if◌then◌else◌, if-intro, ltb, arith,
}
use llm_router_server_dashbo.Fleet.State.{
  ModelState, stopped, starting, ready, sleeping, failed, stopping, is_ready, is_starting,
  is_sleeping, is_failed, is_stopping, wants_running,
}
use llm_router_server_dashbo.Fleet.Instance.{Instance, Settings, Transition, set_state, touch}
use llm_router_server_dashbo.Fleet.Reconciler.{
  Signals, maybe_schedule_restart, on_exit, on_poll, check_process_exit, on_ready, note_progress,
  progress_since, on_waiting, on_probe, after_exit, reconcile_instance, is_past, is_due, adopt,
}
use llm_router_server_dashbo.Fleet.Manager.{
  Claim, claimed, already_running, conflict, claim_start, begin_start, begin_stop, begin_sleep,
  finish_sleep, begin_wake, finish_wake,
}

-- The report says that the instance turned ready.
abbrev pub turns_ready : Option Transition → Bool
turns_ready none = false
turns_ready (some t) = is_ready t.to_state

-- A claim, where it succeeds, has the count.
abbrev pub HasCount : ℕ → Claim → Type 0
HasCount n (claimed inst) = inst.restart_count ≡ n
HasCount n already_running = Unit
HasCount n conflict = Unit

abbrev pub SameCount : Instance → Instance → Type 0
SameCount inst next = next.restart_count ≡ inst.restart_count

pub begin_start-HasCount :
    (now : ℕ) (b : Bool) (inst : Instance)
    → HasCount (if b then 0 else inst.restart_count) (begin_start now b inst)
unfolding begin_start claim_start set_state touch
begin_start-HasCount now b inst =
    if-intro (HasCount (if b then 0 else inst.restart_count))
      (is_starting inst.state || is_ready inst.state) _ _ (λ _. tt) (λ _. refl)

pub begin_sleep-HasCount :
    (now : ℕ) (inst : Instance) → HasCount inst.restart_count (begin_sleep now inst)
unfolding begin_sleep touch
begin_sleep-HasCount now inst =
    if-intro (HasCount inst.restart_count) (not inst.sleep_enabled) _ _ (λ _. tt)
      (λ _. if-intro (HasCount inst.restart_count) (is_ready inst.state) _ _ (λ _. refl) (λ _. tt))

pub begin_wake-HasCount :
    (now : ℕ) (inst : Instance) → HasCount inst.restart_count (begin_wake now inst)
unfolding begin_wake touch
begin_wake-HasCount now inst =
    if-intro (HasCount inst.restart_count) (is_sleeping inst.state) _ _ (λ _. refl) (λ _. tt)

pub begin_stop-SameCount : (now : ℕ) (inst : Instance) → SameCount inst (begin_stop now inst)
unfolding begin_stop set_state touch
begin_stop-SameCount now inst =
    if-intro (SameCount inst) (is_some inst.proc && inst.managed) _ _ (λ _. refl)
      (λ _.
        if-intro (SameCount inst) (not inst.managed && is_ready inst.state) _ _ (λ _. refl)
          (λ _. refl))

pub finish_sleep-SameCount :
    (now : ℕ) (called : Bool) (inst : Instance) → SameCount inst (finish_sleep now called inst)
unfolding finish_sleep set_state touch
finish_sleep-SameCount now called inst =
    if-intro (SameCount inst) called _ _ (λ _. refl) (λ _. refl)

pub finish_wake-SameCount :
    (now : ℕ) (called : Bool) (inst : Instance) → SameCount inst (finish_wake now called inst)
unfolding finish_wake set_state touch
finish_wake-SameCount now called inst = if-intro (SameCount inst) called _ _ (λ _. refl) (λ _. refl)

pub adopt-SameCount : (sig : Signals) (inst : Instance) → SameCount inst (adopt sig inst).0
unfolding adopt set_state touch
adopt-SameCount sig inst =
    if-intro (λ (r : Instance × Option Transition). SameCount inst r.0) sig.probe_ok _ _ (λ _. refl)
      (λ _. refl)

pub is_due-budget :
    (settings : Settings) (now : ℕ) (inst : Instance)
    → is_due settings now inst ≡ true
    → inst.restart_count < settings.max_restarts
unfolding is_due
is_due-budget settings now inst due =
    last_part (is_failed inst.state) (wants_running inst.desired) inst.managed
      (is_past inst.next_restart_at now) inst.restart_count settings.max_restarts due
  where
    last_part : (a b c d : Bool) (m n : ℕ) → (a && (b && (c && (d && ltb m n)))) ≡ true → m < n
    last_part a b c d m n h = ground arith

module _ (settings : Settings) where
  restart-count :
      (now : ℕ) (inst : Instance)
      → (maybe_schedule_restart settings now inst).restart_count ≡ inst.restart_count
  unfolding maybe_schedule_restart
  restart-count now inst =
      if-intro (λ (i : Instance). i.restart_count ≡ inst.restart_count) _ _ _ (λ _. refl)
        (λ _. refl)

  -- The count stays, or it is set to 0 as the instance turns ready.
  abbrev pub Keeps : Instance → Instance × Option Transition → Type 0
  Keeps inst (next, t) =
      (next.restart_count ≡ inst.restart_count)
      ⊎ ((next.restart_count ≡ 0) × (turns_ready t ≡ true))

  module _ (sig : Signals) where
    on_exit-count :
        (rc : String) (inst : Instance) → (on_exit sig rc inst).0.restart_count ≡ inst.restart_count
    unfolding on_exit set_state touch
    on_exit-count rc inst =
        if-intro (λ (i : Instance). i.restart_count ≡ inst.restart_count) (is_stopping inst.state) _
          _ (λ _. refl) (λ _. refl)

    check-count :
        (inst : Instance) → (check_process_exit sig inst).0.restart_count ≡ inst.restart_count
    unfolding check_process_exit
    check-count inst =
        if-intro (λ (r : Instance × Option Transition). r.0.restart_count ≡ inst.restart_count)
          (inst.managed && is_some inst.proc) _ _ (λ _. polled sig.exit_code) (λ _. refl)
      where
        polled : (o : Option String) → (on_poll sig inst o).0.restart_count ≡ inst.restart_count
        polled none = unfold on_poll in refl
        polled (some rc) = unfold on_poll in on_exit-count rc inst

    noted-count : (inst : Instance) → (note_progress sig inst).restart_count ≡ inst.restart_count
    unfolding note_progress
    noted-count inst =
        if-intro (λ (i : Instance). i.restart_count ≡ inst.restart_count)
          (ltb inst.last_log_size (or_default sig.log_size inst.last_log_size)) _ _ (λ _. refl)
          (λ _. refl)

    on_waiting-count :
        (inst : Instance) → (on_waiting settings sig inst).0.restart_count ≡ inst.restart_count
    unfolding on_waiting set_state touch
    on_waiting-count inst =
        if-intro (λ (r : Instance × Option Transition). r.0.restart_count ≡ inst.restart_count)
          (ltb (progress_since sig.now (note_progress sig inst) + settings.start_timeout) sig.now) _
          _ (λ _. restart-count sig.now _ ∙ noted-count inst) (λ _. noted-count inst)

    on_probe-Keeps : (inst : Instance) (s : ModelState) → Keeps inst (on_probe settings sig inst s)
    unfolding on_probe on_ready set_state touch
    on_probe-Keeps inst starting =
        if-intro (Keeps inst) sig.probe_ok _ _ (λ _. inr (refl, refl))
          (λ _. inl (on_waiting-count inst))
    on_probe-Keeps inst ready = inl (
        if-intro (λ (i : Instance). i.restart_count ≡ inst.restart_count) sig.probe_ok _ _
          (λ _. refl) (λ _. refl))
    on_probe-Keeps inst stopped = inl refl
    on_probe-Keeps inst sleeping = inl refl
    on_probe-Keeps inst failed = inl refl
    on_probe-Keeps inst stopping = inl refl

    after_exit-Keeps :
        (inst : Instance) (o : Option Transition) → Keeps inst (after_exit settings sig inst o)
    unfolding after_exit
    after_exit-Keeps inst none = on_probe-Keeps inst inst.state
    after_exit-Keeps inst (some t) = inl (
        if-intro (λ (i : Instance). i.restart_count ≡ inst.restart_count) (is_failed t.to_state) _ _
          (λ _. restart-count sig.now inst) (λ _. refl))

    pub reconcile-Keeps : (inst : Instance) → Keeps inst (reconcile_instance settings sig inst)
    unfolding reconcile_instance
    reconcile-Keeps inst =
        elim (after_exit-Keeps (check_process_exit sig inst).0 (check_process_exit sig inst).1) [
          | inl kept ↦ inl (kept ∙ check-count inst)
          | inr reset ↦ inr reset
        ]
