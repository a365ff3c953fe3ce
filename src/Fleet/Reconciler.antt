-- ===== src/Fleet/Reconciler.antt =====
-- apps/backend/app/llmops/reconciler.py: the observed state of an instance from the process and the
-- health probe, and the restarts of crashed instances.
use Prim.Native.String.{◌++◌}
use llm_router_server_dashbo.Base.{
  ℕ, ◌+◌, ◌*◌, ◌^◌, String, Bool, true, false, not, ◌&&◌, Option, none, some, is_some, or_default,
  leb, ltb, if◌then◌else◌, str_eq,
}
use llm_router_server_dashbo.Fleet.State.{
  ModelState, stopped, starting, ready, sleeping, failed, stopping, want_running, is_failed,
  is_stopping, wants_running,
}
use llm_router_server_dashbo.Fleet.Instance.{Instance, Settings, Transition, set_state, touch}

-- What a pass reads from outside: the exit code of the process (as text) if it exited, the tail of the
-- log, the health probe, the size of the log where it can be read, and the clock.
pub record Signals : Type 0 where
  pub exit_code : Option String
  pub log_tail : String
  pub probe_ok : Bool
  pub log_size : Option ℕ
  pub now : ℕ

unfoldable pub maybe_schedule_restart : Settings → ℕ → Instance → Instance
maybe_schedule_restart settings now inst =
    if wants_running inst.desired
      && (inst.managed && (settings.auto_restart && ltb inst.restart_count settings.max_restarts))
    then record inst {
      next_restart_at = some (now + settings.restart_backoff_base * 2 ^ inst.restart_count);
    }
    else inst

exit_detail : Signals → Bool → String → String
exit_detail sig has_log rc =
    let text = ("process exited (rc=" ++ rc) ++ ")" in
    if not has_log
    then text
    else if str_eq sig.log_tail ""
    then text
    else (text ++ "\n") ++ sig.log_tail

-- The process has exited: a stop is complete, anything else is a crash.
unfoldable pub on_exit : Signals → String → Instance → Instance × Option Transition
unfolding exit_detail
on_exit sig rc inst =
    let detail = exit_detail sig inst.has_log rc in
    let next =
      if is_stopping inst.state
      then set_state sig.now stopped inst
      else set_state sig.now failed (record inst { last_error = some detail; was_failed = true }) in
    (
      record next { proc = none; pid = none },
      some (record {
        from_state = inst.state;
        to_state = next.state;
        detail = if is_stopping inst.state then none else some detail;
      }),
    )

-- proc.poll(): nothing happens while the process lives.
unfoldable pub on_poll : Signals → Instance → Option String → Instance × Option Transition
unfolding on_exit
on_poll sig inst none = (inst, none)
on_poll sig inst (some rc) = on_exit sig rc inst

unfoldable pub check_process_exit : Signals → Instance → Instance × Option Transition
unfolding on_poll
check_process_exit sig inst =
    if inst.managed && is_some inst.proc then on_poll sig inst sig.exit_code else (inst, none)

-- The seconds come as the text that Python formats them to.
unfoldable timeout_detail : Settings → String
timeout_detail settings =
    "startup timeout: no log progress for "
    ++ (settings.start_timeout_text ++ "s and /health never returned 200")

-- STARTING and healthy: a fresh restart budget.
unfoldable pub on_ready : Signals → Instance → Instance × Option Transition
on_ready sig inst = (
  set_state sig.now ready
      (record inst { last_error = none; restart_count = 0; next_restart_at = none }),
  some (record { from_state = starting; to_state = ready; detail = none }),
)

-- A log that grew is progress.
unfoldable pub note_progress : Signals → Instance → Instance
note_progress sig inst =
    let size = or_default sig.log_size inst.last_log_size in
    if ltb inst.last_log_size size
    then record inst { last_log_size = size; last_progress_at = some sig.now }
    else inst

-- inst.last_progress_at or inst.started_at or now
unfoldable pub progress_since : ℕ → Instance → ℕ
progress_since now inst = or_default inst.last_progress_at (or_default inst.started_at now)

-- STARTING and not healthy: a failure after start_timeout without progress. The process is killed.
unfoldable pub on_waiting : Settings → Signals → Instance → Instance × Option Transition
unfolding note_progress progress_since timeout_detail
on_waiting settings sig inst =
    let noted = note_progress sig inst in
    if ltb (progress_since sig.now noted + settings.start_timeout) sig.now
    then (
      maybe_schedule_restart settings sig.now (
          set_state sig.now failed (record noted {
            last_error = some (timeout_detail settings);
            was_failed = true;
            proc = none;
            pid = none;
          })),
      some (record {
        from_state = starting;
        to_state = failed;
        detail = some (timeout_detail settings);
      }),
    )
    else (noted, none)

-- The probe of a STARTING or READY instance; a READY one only notes a miss.
unfoldable pub on_probe : Settings → Signals → Instance → ModelState → Instance × Option Transition
unfolding on_ready on_waiting
on_probe settings sig inst starting =
    if sig.probe_ok then on_ready sig inst else on_waiting settings sig inst
on_probe settings sig inst ready = (
  if sig.probe_ok
      then inst
      else touch sig.now
          (record inst { last_error = some "health probe failing while process alive" }),
  none,
)
on_probe settings sig inst stopped = (inst, none)
on_probe settings sig inst sleeping = (inst, none)
on_probe settings sig inst failed = (inst, none)
on_probe settings sig inst stopping = (inst, none)

-- A crash arms a restart, a completed stop does not.
unfoldable pub after_exit :
    Settings → Signals → Instance → Option Transition → Instance × Option Transition
unfolding on_probe maybe_schedule_restart
after_exit settings sig inst none = on_probe settings sig inst inst.state
after_exit settings sig inst (some t) =
    (if is_failed t.to_state then maybe_schedule_restart settings sig.now inst else inst, some t)

unfoldable pub reconcile_instance : Settings → Signals → Instance → Instance × Option Transition
unfolding check_process_exit after_exit
reconcile_instance settings sig inst =
    let (next, t) = check_process_exit sig inst in after_exit settings sig next t

abbrev pub is_past : Option ℕ → ℕ → Bool
is_past none now = false
is_past (some at_time) now = leb at_time now

-- The condition of `_process_restarts`, for an instance that no other node owns.
unfoldable pub is_due : Settings → ℕ → Instance → Bool
is_due settings now inst =
    is_failed inst.state
    && (wants_running inst.desired
        && (inst.managed
            && (is_past inst.next_restart_at now && ltb inst.restart_count settings.max_restarts)))

-- The entry that it makes for a due instance, before it starts it.
unfoldable pub claim_restart : Instance → Instance
claim_restart inst = record inst { next_restart_at = none; restart_count = inst.restart_count + 1 }

-- `adopt_running`: a healthy backend at boot, whoever started it.
unfoldable pub adopt : Signals → Instance → Instance × Option Transition
adopt sig inst =
    if sig.probe_ok
    then (
      set_state sig.now ready (record inst { managed = false; desired = want_running }),
      some (record {
        from_state = inst.state;
        to_state = ready;
        detail = some "adopted (external)";
      }),
    )
    else (inst, none)
