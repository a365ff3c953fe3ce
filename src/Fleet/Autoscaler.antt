-- ===== src/Fleet/Autoscaler.antt =====
-- apps/backend/app/llmops/autoscaler.py: the scaling policy of a group. Times are milliseconds, loads
-- are thousandths; `now - t >= w` is written `t + w <= now`, the same for clocks that do not go back.
pub mod Sound
pub mod Pace
use llm_router_server_dashbo.Base.{
  ℕ, zero, suc, ◌+◌, String, Bool, true, false, not, ◌&&◌, ◌||◌, Option, none, some, List, [], ◌∷◌,
  length, filter, map, last_or, or_default, leb, ltb, ◌==◌, if◌then◌else◌,
}
use llm_router_server_dashbo.Fleet.State.{
  ModelState, is_stopped, is_ready, is_sleeping, is_starting,
}

-- AutoscaleConfig
pub record Policy : Type 0 where
  pub enabled : Bool
  pub min_ready : ℕ
  pub min_warm : ℕ
  pub max_ready : Option ℕ
  pub scale_up_waiting : ℕ
  pub scale_up_window_s : ℕ
  pub sleep_after_s : ℕ
  pub stop_after_s : ℕ
  pub cooldown_s : ℕ

pub record GroupTiming : Type 0 where
  pub over_since : Option ℕ
  pub idle_since : Option ℕ
  pub last_scale_up : ℕ

-- `_Inst`
pub record Replica : Type 0 where
  pub key : String
  pub state : ModelState

-- The keys of `load_stats[group]` that the policy reads.
pub record GroupLoad : Type 0 where
  pub waiting_per_replica : ℕ
  pub running_total : ℕ
  pub waiting_total : ℕ

pub data Verb : Type 0 where
  wake start sleep stop : Verb

abbrev pub Action : Type 0
Action = Verb × String

-- [i.key for i in instances if i.state == ...]
unfoldable pub keys_in : (ModelState → Bool) → List Replica → List String
keys_in p [] = []
keys_in p (i ∷ is) = let rest = keys_in p is in if p i.state then i.key ∷ rest else rest

abbrev pub pending_ready : ModelState → Bool
pending_ready s = is_ready s || is_starting s

-- Wake an asleep replica, else start a stopped one.
unfoldable pub bring_up : List String → List String → List Action
bring_up (key ∷ asleep) stopped = (wake, key) ∷ []
bring_up [] (key ∷ stopped) = (start, key) ∷ []
bring_up [] [] = []

unfoldable pub cap : Policy → List Replica → ℕ
cap cfg instances = or_default cfg.max_ready (length instances)

-- sustained and cooled and effective_ready < max_ready
abbrev pub may_scale_up : Policy → List Replica → GroupTiming → ℕ → ℕ → Bool
may_scale_up cfg instances timing over now =
    leb (over + cfg.scale_up_window_s) now
    && (leb (timing.last_scale_up + cfg.cooldown_s) now
        && ltb (length (keys_in pending_ready instances)) (cap cfg instances))

-- Queue pressure: over_since starts the window, and a scale-up ends it.
unfoldable pub scale_up : Policy → List Replica → GroupTiming → ℕ → List Action × GroupTiming
unfolding bring_up cap
scale_up cfg instances timing now =
    let over = or_default timing.over_since now in
    if may_scale_up cfg instances timing over now
    then (
      bring_up (keys_in is_sleeping instances) (keys_in is_stopped instances),
      record { over_since = none; idle_since = none; last_scale_up = now },
    )
    else (
      [],
      record { over_since = some over; idle_since = none; last_scale_up = timing.last_scale_up },
    )

-- xs[-1] where there is one
abbrev pub last_of : (String → Action) → List String → List Action
last_of act [] = []
last_of act (x ∷ xs) = act (last_or x xs) ∷ []

unfoldable pub retire : Policy → List Replica → Bool → ℕ → ℕ → List Action
retire cfg instances sleep_capable since now =
    let ready = keys_in is_ready instances in
    let asleep = keys_in is_sleeping instances in
    if leb (since + cfg.sleep_after_s) now && ltb cfg.min_ready (length ready)
    then last_of (λ key. (if sleep_capable then sleep else stop, key)) ready
    else if leb (since + cfg.stop_after_s) now && ltb cfg.min_warm (length ready + length asleep)
    then last_of (λ key. (stop, key)) asleep
    else []

abbrev pub is_idle : GroupLoad → Bool
is_idle load = (load.running_total == 0) && (load.waiting_total == 0)

unfoldable pub scale_down :
    Policy → GroupLoad → List Replica → Bool → GroupTiming → ℕ → List Action × GroupTiming
unfolding retire
scale_down cfg load instances sleep_capable timing now =
    let since = or_default timing.idle_since now in
    if is_idle load
    then (
      retire cfg instances sleep_capable since now,
      record { over_since = none; idle_since = some since; last_scale_up = timing.last_scale_up },
    )
    else ([], record { over_since = none; idle_since = none; last_scale_up = timing.last_scale_up })

-- Below the floor the cooldown does not count.
unfoldable pub decide :
    Policy → GroupLoad → List Replica → Bool → GroupTiming → ℕ → List Action × GroupTiming
unfolding scale_up scale_down
decide cfg load instances sleep_capable timing now =
    if not cfg.enabled
    then ([], timing)
    else if ltb (length (keys_in pending_ready instances)) cfg.min_ready
    then (bring_up (keys_in is_sleeping instances) (keys_in is_stopped instances), timing)
    else if ltb cfg.scale_up_waiting load.waiting_per_replica
    then scale_up cfg instances timing now
    else scale_down cfg load instances sleep_capable timing now
