-- ===== src/Fleet/Notifier.antt =====
-- apps/backend/app/llmops/notifier.py: which sinks receive an alert, and when.
pub mod Cooldown
use llm_router_server_dashbo.Fleet.State.{ModelKind}
use llm_router_server_dashbo.Base.{
  ℕ, ◌+◌, String, Bool, true, false, not, ◌&&◌, Option, none, some, List, [], ◌∷◌, filter, is_empty,
  leb, ltb, str_eq, if◌then◌else◌,
}

pub record AlertEvent : Type 0 where
  pub event : String
  pub severity : String
  pub model : String
  pub kind : ModelKind
  pub detail : Option String
  pub restart_count : ℕ
  pub ts : ℕ

pub record Sink : Type 0 where
  pub type_of : String
  pub url : String
  pub min_severity : String

-- `_last_sent` maps a model and an event to a time.
pub record Notifier : Type 0 where
  pub sinks : List Sink
  pub cooldown_s : ℕ
  pub last_sent : String → String → Option ℕ

unfoldable pub severity_rank : String → ℕ
severity_rank s =
    if str_eq s "warning"
    then 1
    else if str_eq s "error"
    then 2
    else if str_eq s "critical"
    then 3
    else 0

-- now - last < cooldown
abbrev pub is_recent : ℕ → ℕ → Option ℕ → Bool
is_recent cooldown now none = false
is_recent cooldown now (some last) = ltb now (last + cooldown)

abbrev pub mark_sent : ℕ → AlertEvent → Notifier → Notifier
mark_sent now ev n = record n {
  last_sent = λ model event.
      if str_eq model ev.model && str_eq event ev.event then some now else n.last_sent model event;
}

unfoldable pub suppressed : ℕ → AlertEvent → Notifier → Bool × Notifier
suppressed now ev n =
    if is_recent n.cooldown_s now (n.last_sent ev.model ev.event)
    then (true, n)
    else (false, mark_sent now ev n)

abbrev pub eligible : AlertEvent → List Sink → List Sink
eligible ev sinks =
    filter (λ s. leb (severity_rank s.min_severity) (severity_rank ev.severity)) sinks

-- The sinks that the alert is sent to.
unfoldable pub notify : ℕ → AlertEvent → Notifier → List Sink × Notifier
unfolding suppressed severity_rank
notify now ev n =
    let chosen = eligible ev n.sinks in
    let (quiet, n') = suppressed now ev n in
    if is_empty chosen then ([], n) else if quiet then ([], n') else (chosen, n')
