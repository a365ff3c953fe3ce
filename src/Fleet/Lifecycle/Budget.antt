-- ===== src/Fleet/Lifecycle/Budget.antt =====
-- The restart budget: how often a crashing instance is started again.
use llm_router_server_dashbo.Base.{
  ℕ, ◌+◌, ◌≤◌, Bool, true, false, ◌||◌, ◌≡◌, refl, subst, ◌⊎◌, inl, inr, arith,
}
use llm_router_server_dashbo.Fleet.Instance.{Instance, Settings, set_state, touch}
use llm_router_server_dashbo.Fleet.Reconciler.{reconcile_instance, claim_restart}
use llm_router_server_dashbo.Fleet.Manager.{finish_start, fail_start, finish_stop}
use llm_router_server_dashbo.Fleet.Lifecycle.{
  Step, Run, reconciled, adopted, restarted, started, spawned, not_spawned, stop_begun, stop_done,
  sleep_begun, sleep_done, wake_begun, wake_done, done, step,
}
use llm_router_server_dashbo.Fleet.Lifecycle.Counts.{
  turns_ready, HasCount, begin_start-HasCount, begin_sleep-HasCount, begin_wake-HasCount,
  begin_stop-SameCount, finish_sleep-SameCount, finish_wake-SameCount, adopt-SameCount,
  is_due-budget, reconcile-Keeps,
}

module _ (settings : Settings) where
  -- The automatic restarts of a run.
  abbrev pub is_restart : {a b : Instance} → Step settings a b → ℕ
  is_restart (restarted now inst next due e) = 1
  is_restart (reconciled sig inst) = 0
  is_restart (adopted sig inst) = 0
  is_restart (started now inst next e) = 0
  is_restart (spawned now pid inst) = 0
  is_restart (not_spawned now e inst) = 0
  is_restart (stop_begun now inst) = 0
  is_restart (stop_done now inst) = 0
  is_restart (sleep_begun now inst next e) = 0
  is_restart (sleep_done now called inst) = 0
  is_restart (wake_begun now inst next e) = 0
  is_restart (wake_done now called inst) = 0

  -- The count starts anew: the user starts the instance, or it turns ready.
  abbrev pub is_reset : {a b : Instance} → Step settings a b → Bool
  is_reset (restarted now inst next due e) = false
  is_reset (reconciled sig inst) = turns_ready (reconcile_instance settings sig inst).1
  is_reset (adopted sig inst) = false
  is_reset (started now inst next e) = true
  is_reset (spawned now pid inst) = false
  is_reset (not_spawned now e inst) = false
  is_reset (stop_begun now inst) = false
  is_reset (stop_done now inst) = false
  is_reset (sleep_begun now inst next e) = false
  is_reset (sleep_done now called inst) = false
  is_reset (wake_begun now inst next e) = false
  is_reset (wake_done now called inst) = false

  -- The step keeps the count, or is a restart within the budget, or a reset.
  abbrev Counts : {a b : Instance} → Step settings a b → Type 0
  Counts {a} {b} s =
      ((b.restart_count ≡ a.restart_count + is_restart s)
        × ((is_restart s ≡ 0) ⊎ (b.restart_count ≤ settings.max_restarts)))
      ⊎ ((b.restart_count ≡ 0) × (is_reset s ≡ true))

  same : {m n : ℕ} → n ≡ m → n ≡ m + 0
  same kept = omega (arith, kept)

  Step-Counts : {a b : Instance} (s : Step settings a b) → Counts s
  Step-Counts (reconciled sig inst) = elim (reconcile-Keeps settings sig inst) [
    | inl kept ↦ inl (same kept, inl refl)
    | inr reset ↦ inr reset
  ]
  Step-Counts (adopted sig inst) = inl (same (adopt-SameCount sig inst), inl refl)
  Step-Counts (restarted now inst next due e) =
      let count : next.restart_count ≡ inst.restart_count + 1 =
        unfold claim_restart in
        subst (HasCount (inst.restart_count + 1)) e
          (begin_start-HasCount now false (claim_restart inst)) in
      inl (count, inr (omega (arith, count, is_due-budget settings now inst due)))
  Step-Counts (started now inst next e) =
      inr (subst (HasCount 0) e (begin_start-HasCount now true inst), refl)
  Step-Counts (spawned now pid inst) = unfold finish_start touch in inl (same refl, inl refl)
  Step-Counts (not_spawned now e inst) =
      unfold fail_start set_state touch in inl (same refl, inl refl)
  Step-Counts (stop_begun now inst) = inl (same (begin_stop-SameCount now inst), inl refl)
  Step-Counts (stop_done now inst) = unfold finish_stop set_state touch in inl (same refl, inl refl)
  Step-Counts (sleep_begun now inst next e) =
      inl (same (subst (HasCount inst.restart_count) e (begin_sleep-HasCount now inst)), inl refl)
  Step-Counts (sleep_done now called inst) =
      inl (same (finish_sleep-SameCount now called inst), inl refl)
  Step-Counts (wake_begun now inst next e) =
      inl (same (subst (HasCount inst.restart_count) e (begin_wake-HasCount now inst)), inl refl)
  Step-Counts (wake_done now called inst) =
      inl (same (finish_wake-SameCount now called inst), inl refl)

  -- The restarts of a run, and whether the count starts anew in it.
  abbrev pub restarts : {a b : Instance} → Run settings a b → ℕ
  restarts (done inst) = 0
  restarts (step s run) = is_restart s + restarts run

  abbrev pub resets : {a b : Instance} → Run settings a b → Bool
  resets (done inst) = false
  resets (step s run) = is_reset s || resets run

  Step-budget :
      {a b : Instance} (s : Step settings a b)
      → a.restart_count ≤ settings.max_restarts
      → b.restart_count ≤ settings.max_restarts
  Step-budget s h = elim (Step-Counts s) [
    | inl (count, cost) ↦ elim cost [
      | inl free ↦ omega (arith, h, count, free)
      | inr within ↦ within
    ]
    | inr (zeroed, reset) ↦ omega (arith, zeroed)
  ]

  -- The count never exceeds the budget, whatever is done to the instance and in whatever order.
  pub Run-budget :
      {a b : Instance} (run : Run settings a b)
      → a.restart_count ≤ settings.max_restarts
      → b.restart_count ≤ settings.max_restarts
  Run-budget (done inst) h = h
  Run-budget (step s run) h = Run-budget run (Step-budget s h)

  -- A crash loop ends: as long as the instance neither turns ready nor is started by the user, it is
  -- restarted at most as often as its budget has left, whatever else happens in between.
  pub Run-restarts :
      {a b : Instance} (run : Run settings a b)
      → a.restart_count ≤ settings.max_restarts
      → resets run ≡ false
      → restarts run + a.restart_count ≤ settings.max_restarts
  Run-restarts (done inst) h fresh = omega (arith, h)
  Run-restarts (step {b = b} s run) h fresh =
      let rest : restarts run + b.restart_count ≤ settings.max_restarts =
        Run-restarts run (Step-budget s h) (neither _ _ fresh).1 in
      elim (Step-Counts s) [
        | inl (count, cost) ↦ omega (arith, count, rest)
        | inr (zeroed, reset) ↦ absurd (clash _ reset (neither _ _ fresh).0)
      ]
    where
      neither : (a b : Bool) → (a || b) ≡ false → (a ≡ false) × (b ≡ false)
      neither a b h = ground arith

      clash : (b : Bool) → b ≡ true → b ≡ false → ⊥
      clash b h k = cc
