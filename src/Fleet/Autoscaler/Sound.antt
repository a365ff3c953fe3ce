-- ===== src/Fleet/Autoscaler/Sound.antt =====
-- What the autoscaler may do.
use llm_router_server_dashbo.Base.{
  ℕ, ◌+◌, ◌<◌, ◌≡◌, refl, String, Bool, true, false, not, ◌&&◌, List, [], ◌∷◌, length, All, Memᴰ,
  last_or, or_default, leb, ltb, ◌==◌, arith, if◌then◌else◌, if-intro, ltb→lt, ◌⊎◌, inl, inr,
}
use llm_router_server_dashbo.Fleet.State.{is_stopped, is_ready, is_sleeping}
use llm_router_server_dashbo.Fleet.Autoscaler.{
  Policy, GroupTiming, Replica, GroupLoad, wake, start, sleep, stop, Action, keys_in, pending_ready,
  bring_up, cap, may_scale_up, scale_up, last_of, retire, is_idle, scale_down, decide,
}

module _ (cfg : Policy) (load : GroupLoad) (instances : List Replica) (sleep_capable : Bool) where
  -- Fewer replicas are ready or starting than the floor or the cap asks for.
  abbrev HasRoom : Type 0
  HasRoom =
      (length (keys_in pending_ready instances) < cfg.min_ready)
      ⊎ ((cfg.scale_up_waiting < load.waiting_per_replica)
          × (length (keys_in pending_ready instances) < cap cfg instances))

  abbrev IsIdle : Type 0
  IsIdle = (load.running_total ≡ 0) × (load.waiting_total ≡ 0)

  -- A ready replica goes only where more are ready than the floor.
  abbrev IsSpare : String → Type 0
  IsSpare key =
      Memᴰ key (keys_in is_ready instances) × (cfg.min_ready < length (keys_in is_ready instances))

  -- What each action needs.
  abbrev pub IsSound : Action → Type 0
  IsSound (wake, key) = Memᴰ key (keys_in is_sleeping instances) × HasRoom
  IsSound (start, key) =
      Memᴰ key (keys_in is_stopped instances) × HasRoom × (keys_in is_sleeping instances ≡ [])
  IsSound (sleep, key) = IsSpare key × IsIdle × (sleep_capable ≡ true)
  IsSound (stop, key) =
      IsIdle
      × ((IsSpare key × (sleep_capable ≡ false))
          ⊎ (Memᴰ key (keys_in is_sleeping instances)
              × (cfg.min_warm
                  < length (keys_in is_ready instances) + length (keys_in is_sleeping instances))))

  bring_up-IsSound :
      (asleep stopped : List String)
      → keys_in is_sleeping instances ≡ asleep
      → keys_in is_stopped instances ≡ stopped
      → HasRoom
      → All IsSound (bring_up asleep stopped)
  unfolding bring_up
  bring_up-IsSound [] [] e f room = tt
  bring_up-IsSound [] (key ∷ stopped) e f room = ((rw f (Memᴰ.head refl), room, e), tt)
  bring_up-IsSound (key ∷ asleep) stopped e f room = ((rw e (Memᴰ.head refl), room), tt)

  last_or-mem : (x : String) (xs : List String) → Memᴰ (last_or x xs) (x ∷ xs)
  last_or-mem x [] = Memᴰ.head refl
  last_or-mem x (y ∷ ys) = Memᴰ.tail (last_or-mem y ys)

  last_of-IsSound :
      (act : String → Action) (keys : List String)
      → ((key : String) → Memᴰ key keys → IsSound (act key))
      → All IsSound (last_of act keys)
  last_of-IsSound act [] h = tt
  last_of-IsSound act (x ∷ xs) h = (h (last_or x xs) (last_or-mem x xs), tt)

  retire-IsSound :
      (since now : ℕ) → IsIdle → All IsSound (retire cfg instances sleep_capable since now)
  unfolding retire
  retire-IsSound since now idle =
      if-intro (All IsSound)
        (leb (since + cfg.sleep_after_s) now
          && ltb cfg.min_ready (length (keys_in is_ready instances)))
        _ _
        (λ spare.
          last_of-IsSound _ (keys_in is_ready instances)
            (λ key m. retire_ready key m (below _ _ _ spare) sleep_capable refl))
        (λ _.
          if-intro (All IsSound)
            (leb (since + cfg.stop_after_s) now
              && ltb cfg.min_warm
                  (length (keys_in is_ready instances) + length (keys_in is_sleeping instances)))
            _ _
            (λ warm.
              last_of-IsSound (λ key. (stop, key)) (keys_in is_sleeping instances)
                (λ key m. (idle, inr (m, below _ _ _ warm))))
            (λ _. tt))
    where
      below : (a : Bool) (m n : ℕ) → (a && ltb m n) ≡ true → m < n
      below a m n h = ground arith

      retire_ready :
          (key : String)
          → Memᴰ key (keys_in is_ready instances)
          → cfg.min_ready < length (keys_in is_ready instances)
          → (b : Bool) → sleep_capable ≡ b
          → IsSound (if b then sleep else stop, key)
      retire_ready key m spare true e = ((m, spare), idle, e)
      retire_ready key m spare false e = (idle, inl ((m, spare), e))

  scale_up-IsSound :
      (timing : GroupTiming) (now : ℕ)
      → cfg.scale_up_waiting < load.waiting_per_replica
      → All IsSound (scale_up cfg instances timing now).0
  unfolding scale_up
  scale_up-IsSound timing now over =
      if-intro (λ (r : List Action × GroupTiming). All IsSound r.0)
        (may_scale_up cfg instances timing (or_default timing.over_since now) now) _ _
        (λ free. bring_up-IsSound _ _ refl refl (inr (over, room _ _ _ _ free))) (λ _. tt)
    where
      room : (a b : Bool) (m n : ℕ) → (a && (b && ltb m n)) ≡ true → m < n
      room a b m n h = ground arith

  -- Every action fits the replica and the load: a wake takes an asleep replica and a start a stopped
  -- one with none asleep, either below the floor, or under queue pressure below the cap; a sleep takes
  -- a ready replica of an idle, sleep-capable group beyond the floor, and a stop an idle group's ready
  -- replica beyond the floor where the group cannot sleep, or an asleep one beyond the resident floor.
  pub decide-IsSound :
      (timing : GroupTiming) (now : ℕ)
      → All IsSound (decide cfg load instances sleep_capable timing now).0
  unfolding decide scale_down
  decide-IsSound timing now =
      let Good : List Action × GroupTiming → Type 0 = λ r. All IsSound r.0 in
      if-intro Good (not cfg.enabled) _ _ (λ _. tt)
        (λ _.
          if-intro Good (ltb (length (keys_in pending_ready instances)) cfg.min_ready) _ _
            (λ low. bring_up-IsSound _ _ refl refl (inl (ltb→lt _ _ low)))
            (λ _.
              if-intro Good (ltb cfg.scale_up_waiting load.waiting_per_replica) _ _
                (λ over. scale_up-IsSound timing now (ltb→lt _ _ over))
                (λ _.
                  if-intro Good (is_idle load) _ _
                    (λ idle. retire-IsSound _ now (idle_parts _ _ idle)) (λ _. tt))))
    where
      idle_parts : (a b : ℕ) → ((a == 0) && (b == 0)) ≡ true → (a ≡ 0) × (b ≡ 0)
      idle_parts a b h = ground arith
