-- ===== src/Fleet/Autoscaler/Pace.antt =====
-- How often the autoscaler scales up.
use llm_router_server_dashbo.Base.{
  ℕ, ◌+◌, ◌≤◌, ◌≡◌, refl, String, Bool, true, false, not, ◌&&◌, List, [], ◌∷◌, length, any, last_or,
  or_default, leb, ltb, arith, if◌then◌else◌, if-intro, and_parts, ◌⊎◌, inl, inr, Bool-cases, subst,
}
use llm_router_server_dashbo.Fleet.State.{is_ready, is_sleeping}
use llm_router_server_dashbo.Fleet.Autoscaler.{
  Policy, GroupTiming, Replica, GroupLoad, wake, start, sleep, stop, Action, keys_in, pending_ready,
  may_scale_up, scale_up, last_of, retire, is_idle, scale_down, decide,
}

-- What a tick reads.
pub record Tick : Type 0 where
  pub load : GroupLoad
  pub instances : List Replica
  pub sleep_capable : Bool
  pub now : ℕ

abbrev pub is_up : Action → Bool
is_up (wake, key) = true
is_up (start, key) = true
is_up (sleep, key) = false
is_up (stop, key) = false

abbrev pub decided : Policy → GroupTiming → Tick → List Action × GroupTiming
decided cfg timing t = decide cfg t.load t.instances t.sleep_capable timing t.now

-- The tick scales up although the floor is met.
abbrev pub scales_up : Policy → GroupTiming → Tick → Bool
scales_up cfg timing t =
    not (ltb (length (keys_in pending_ready t.instances)) cfg.min_ready)
    && any is_up (decided cfg timing t).0

-- The times of those ticks.
unfoldable pub scale_ups : Policy → GroupTiming → List Tick → List ℕ
scale_ups cfg timing [] = []
scale_ups cfg timing (t ∷ ts) =
    let rest = scale_ups cfg (decided cfg timing t).1 ts in
    if scales_up cfg timing t then t.now ∷ rest else rest

-- Each time is at least `gap` behind the one before it.
abbrev pub Spaced : ℕ → ℕ → List ℕ → Type 0
Spaced gap last [] = Unit
Spaced gap last (t ∷ ts) = (last + gap ≤ t) × Spaced gap t ts

Spaced-weaken : (gap a b : ℕ) (ts : List ℕ) → a ≤ b → Spaced gap b ts → Spaced gap a ts
Spaced-weaken gap a b [] h s = tt
Spaced-weaken gap a b (t ∷ ts) h s = (omega (arith, h, s.0), s.1)

-- Nothing was brought up and the mark stays, or the cooldown is over and the mark is set.
abbrev Paced : Policy → GroupTiming → ℕ → List Action × GroupTiming → Type 0
Paced cfg timing now r =
    ((r.1.last_scale_up ≡ timing.last_scale_up) × (any is_up r.0 ≡ false))
    ⊎ ((timing.last_scale_up + cfg.cooldown_s ≤ now) × (r.1.last_scale_up ≡ now))

last_of-keeps :
    (act : String → Action) (keys : List String)
    → ((key : String) → is_up (act key) ≡ false)
    → any is_up (last_of act keys) ≡ false
last_of-keeps act [] h = refl
last_of-keeps act (x ∷ xs) h = rw (h (last_or x xs)) refl

retire-keeps :
    (cfg : Policy) (instances : List Replica) (b : Bool) (since now : ℕ)
    → any is_up (retire cfg instances b since now) ≡ false
unfolding retire
retire-keeps cfg instances b since now =
    let Keeps : List Action → Type 0 = λ l. any is_up l ≡ false in
    if-intro Keeps
      (leb (since + cfg.sleep_after_s) now
        && ltb cfg.min_ready (length (keys_in is_ready instances)))
      (last_of (λ key. (if b then sleep else stop, key)) (keys_in is_ready instances)) _
      (λ _.
        last_of-keeps (λ key. (if b then sleep else stop, key)) (keys_in is_ready instances)
          (λ key. down b key))
      (λ _.
        if-intro Keeps
          (leb (since + cfg.stop_after_s) now
            && ltb cfg.min_warm
                (length (keys_in is_ready instances) + length (keys_in is_sleeping instances)))
          (last_of (λ key. (stop, key)) (keys_in is_sleeping instances)) []
          (λ _. last_of-keeps (λ key. (stop, key)) (keys_in is_sleeping instances) (λ _. refl))
          (λ _. refl))
  where
    down : (b : Bool) (key : String) → is_up (if b then sleep else stop, key) ≡ false
    down true key = refl
    down false key = refl

decided-Paced :
    (cfg : Policy) (timing : GroupTiming) (t : Tick)
    → ltb (length (keys_in pending_ready t.instances)) cfg.min_ready ≡ false
    → Paced cfg timing t.now (decided cfg timing t)
unfolding decide scale_up scale_down
decided-Paced cfg timing t floor =
    let P : List Action × GroupTiming → Type 0 = Paced cfg timing t.now in
    if-intro P (not cfg.enabled) _ _ (λ _. inl (refl, refl))
      (λ _. rw floor (
        if-intro P (ltb cfg.scale_up_waiting t.load.waiting_per_replica) _ _
          (λ _.
            if-intro P
              (may_scale_up cfg t.instances timing (or_default timing.over_since t.now) t.now) _ _
              (λ may. inr (cooled _ _ _ _ may, refl)) (λ _. inl (refl, refl)))
          (λ _.
            if-intro P (is_idle t.load) _ _
              (λ _. inl (refl, retire-keeps cfg t.instances t.sleep_capable _ t.now))
              (λ _. inl (refl, refl)))))
  where
    cooled : (a c : Bool) (m n : ℕ) → (a && (leb m n && c)) ≡ true → m ≤ n
    cooled a c m n h = ground arith

mark_cases :
    (cfg : Policy) (timing : GroupTiming) (t : Tick)
    → ((decided cfg timing t).1.last_scale_up ≡ timing.last_scale_up)
      ⊎ ((timing.last_scale_up + cfg.cooldown_s ≤ t.now)
          × ((decided cfg timing t).1.last_scale_up ≡ t.now))
mark_cases cfg timing t =
    elim (Bool-cases (ltb (length (keys_in pending_ready t.instances)) cfg.min_ready)) [
      | inl low ↦ inl (
          unfold decide in
          rw low (
            if-intro (λ (r : List Action × GroupTiming). r.1.last_scale_up ≡ timing.last_scale_up)
              (not cfg.enabled) _ _ (λ _. refl) (λ _. refl)))
      | inr floor ↦ elim (decided-Paced cfg timing t floor) [
        | inl same ↦ inl same.0
        | inr moved ↦ inr moved
      ]
    ]

scales_up-cooled :
    (cfg : Policy) (timing : GroupTiming) (t : Tick)
    → scales_up cfg timing t ≡ true
    → (timing.last_scale_up + cfg.cooldown_s ≤ t.now)
      × ((decided cfg timing t).1.last_scale_up ≡ t.now)
scales_up-cooled cfg timing t up =
    let (floor, acts) = and_parts _ _ up in
    elim (decided-Paced cfg timing t (not-true _ floor)) [
      | inl same ↦ absurd (clash _ acts same.1)
      | inr moved ↦ moved
    ]
  where
    not-true : (b : Bool) → not b ≡ true → b ≡ false
    not-true b h = ground arith

    clash : (b : Bool) → b ≡ true → b ≡ false → ⊥
    clash b h k = cc

-- Under queue pressure, with the floor met, a group scales up at most once in a cooldown, over any
-- sequence of ticks, and the first time not before the cooldown since the mark it starts from.
pub scale_ups-Spaced :
    (cfg : Policy) (timing : GroupTiming) (ts : List Tick)
    → Spaced cfg.cooldown_s timing.last_scale_up (scale_ups cfg timing ts)
unfolding scale_ups
scale_ups-Spaced cfg timing [] = tt
scale_ups-Spaced cfg timing (t ∷ ts) =
    let later = scale_ups-Spaced cfg (decided cfg timing t).1 ts in
    if-intro (Spaced cfg.cooldown_s timing.last_scale_up) (scales_up cfg timing t) _ _
      (λ up.
        let (cooled, marked) = scales_up-cooled cfg timing t up in
        (
          cooled,
          subst (λ n. Spaced cfg.cooldown_s n (scale_ups cfg (decided cfg timing t).1 ts)) marked
              later,
        ))
      (λ _. elim (mark_cases cfg timing t) [
        | inl same ↦
            subst (λ n. Spaced cfg.cooldown_s n (scale_ups cfg (decided cfg timing t).1 ts)) same
              later
        | inr moved ↦
            Spaced-weaken cfg.cooldown_s timing.last_scale_up t.now _ (omega (arith, moved.0)) (
              subst (λ n. Spaced cfg.cooldown_s n (scale_ups cfg (decided cfg timing t).1 ts))
                moved.1 later)
      ])
