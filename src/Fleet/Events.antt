-- ===== src/Fleet/Events.antt =====
-- apps/backend/app/llmops/events.py: which transitions of an instance are alerts.
use llm_router_server_dashbo.Base.{
  ℕ, String, Bool, true, false, not, ◌&&◌, Option, none, some, is_some, leb, str_eq, if◌then◌else◌,
  ◌≡◌, arith,
}
use llm_router_server_dashbo.Fleet.State.{ModelState, is_failed, is_ready, wants_running}
use llm_router_server_dashbo.Fleet.Instance.{Instance, Settings}
use llm_router_server_dashbo.Fleet.Notifier.{AlertEvent}
use llm_router_server_dashbo.Fleet.Reconciler.{maybe_schedule_restart}

unfoldable pub gave_up : Settings → Instance → Bool
gave_up settings inst =
    inst.managed
    && (wants_running inst.desired
        && (settings.auto_restart
            && (leb settings.max_restarts inst.restart_count
                && not (is_some inst.next_restart_at))))

-- detail or inst.last_error
abbrev pub detail_or_error : Option String → Instance → Option String
detail_or_error (some d) inst = if str_eq d "" then inst.last_error else some d
detail_or_error none inst = inst.last_error

unfoldable pub classify_event :
    Settings → ℕ → Instance → ModelState → Option String → Option AlertEvent
unfolding gave_up
classify_event settings now inst to detail =
    if is_failed to
    then some (record {
      event = if gave_up settings inst then "model_gave_up" else "model_failed";
      severity = if gave_up settings inst then "critical" else "error";
      model = inst.key;
      kind = inst.kind;
      detail = detail_or_error detail inst;
      restart_count = inst.restart_count;
      ts = now;
    })
    else if is_ready to && inst.was_failed
    then some (record {
      event = "model_recovered";
      severity = "info";
      model = inst.key;
      kind = inst.kind;
      detail = none;
      restart_count = inst.restart_count;
      ts = now;
    })
    else none

-- The store records the event; a ready instance clears its flag; the alert is the one to dispatch.
unfoldable pub emit_transition :
    Settings → ℕ → Instance → ModelState → Option String → Instance × Option AlertEvent
unfolding classify_event
emit_transition settings now inst to detail = (
  if is_ready to then record inst { was_failed = false } else inst,
  classify_event settings now inst to detail,
)

-- Of an instance that is managed, wanted and restarted automatically, a failure leaves exactly one of
-- two: an armed restart, or the alert that the model was given up. So none is left silently dead, and
-- the alert is not sent while a restart is coming.
pub gave_up-maybe_schedule_restart :
    (settings : Settings) (now : ℕ) (inst : Instance)
    → inst.managed ≡ true
    → wants_running inst.desired ≡ true
    → settings.auto_restart ≡ true
    → gave_up settings (maybe_schedule_restart settings now inst)
      ≡ not (is_some (maybe_schedule_restart settings now inst).next_restart_at)
unfolding gave_up maybe_schedule_restart
gave_up-maybe_schedule_restart settings now inst m d a = ground (arith, m, d, a)
