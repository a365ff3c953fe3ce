-- ===== src/Fleet/Examples.antt =====
-- Runs of the control plane's theorems on concrete data.
pub mod Agreement
pub mod Reports
use llm_router_server_dashbo.Base.{
  not, is_some, ℕ, ◌+◌, ◌≤◌, ◌<◌, ◌≡◌, refl, String, Bool, true, false, Option, none, some, List,
  [], ◌∷◌, All, arith, if◌then◌else◌, or_default,
}
use llm_router_server_dashbo.Base.Dict.{Dict, lookup}
use llm_router_server_dashbo.Fleet.State.{ready, sleeping, failed, llm, want_running}
use llm_router_server_dashbo.Fleet.Autoscaler.{Policy, GroupTiming, Replica, GroupLoad, decide}
use llm_router_server_dashbo.Fleet.Autoscaler.Sound.{IsSound, decide-IsSound}
use llm_router_server_dashbo.Fleet.Autoscaler.Pace.{Tick, scale_ups, Spaced, scale_ups-Spaced}
use llm_router_server_dashbo.Fleet.Scheduler.{Node, place}
use llm_router_server_dashbo.Fleet.Scheduler.Placement.{IsPlaced, place-IsPlaced}
use llm_router_server_dashbo.Fleet.Instance.{Instance, Settings}
use llm_router_server_dashbo.Fleet.Reconciler.{Signals, reconcile_instance}
use llm_router_server_dashbo.Fleet.Manager.{claimed, begin_start, finish_start}
use llm_router_server_dashbo.Fleet.Leader.{Lease, run}
use llm_router_server_dashbo.Fleet.Leader.Exclusion.{
  wins, Exclusive, wins-Exclusive, Alternates, run-Alternates,
}
use llm_router_server_dashbo.Fleet.Notifier.{AlertEvent, Sink, Notifier}
use llm_router_server_dashbo.Fleet.Notifier.Cooldown.{sent_times, spaced, Apart, sent_times-Apart}
use llm_router_server_dashbo.Fleet.Events.{gave_up, gave_up-maybe_schedule_restart}
use llm_router_server_dashbo.Fleet.Reconciler.{maybe_schedule_restart}
use llm_router_server_dashbo.Fleet.Lifecycle.{Run, done, step, reconciled}
use llm_router_server_dashbo.Fleet.Lifecycle.Reports.{IsReport, reconcile_instance-IsReport}
use llm_router_server_dashbo.Fleet.Lifecycle.Budget.{restarts, resets, Run-budget, Run-restarts}
use llm_router_server_dashbo.Fleet.Lifecycle.Handles.{
  reconcile_instance-of_exit, begin_start-of_sleeping,
}

abbrev policy : Policy
policy = record {
  enabled = true;
  min_ready = 1;
  min_warm = 1;
  max_ready = some 3;
  scale_up_waiting = 4_000;
  scale_up_window_s = 0;
  sleep_after_s = 180_000;
  stop_after_s = 900_000;
  cooldown_s = 60_000;
}

abbrev fresh_timing : GroupTiming
fresh_timing = record { over_since = none; idle_since = none; last_scale_up = 0 }

abbrev queued : GroupLoad
queued = record { waiting_per_replica = 9_000; running_total = 2_000; waiting_total = 9_000 }

abbrev one_ready : List Replica
one_ready = record { key = "m::a"; state = ready } ∷ record { key = "m::b"; state = sleeping } ∷ []

decide-IsSound_example :
    All
      (IsSound policy queued one_ready true)
      (decide policy queued one_ready true fresh_timing 70_000).0
decide-IsSound_example = decide-IsSound policy queued one_ready true fresh_timing 70_000

abbrev tick_at : ℕ → Tick
tick_at now = record { load = queued; instances = one_ready; sleep_capable = true; now = now }

scale_ups-Spaced_example :
    Spaced 60_000 0
      (scale_ups policy fresh_timing (tick_at 70_000 ∷ tick_at 75_000 ∷ tick_at 140_000 ∷ []))
scale_ups-Spaced_example =
    scale_ups-Spaced policy fresh_timing (tick_at 70_000 ∷ tick_at 75_000 ∷ tick_at 140_000 ∷ [])

abbrev two_nodes : List Node
two_nodes =
    record { node_id = "n1"; capacity = none; engines = none }
    ∷ record {
      node_id = "n2";
      capacity = some (record { memory_total = 80; memory_used = 10 } ∷ []);
      engines = some ("vllm" ∷ []);
    }
    ∷ []

place-IsPlaced_example :
    IsPlaced two_nodes none "vllm" (lookup "m::a" (place ("m::a" ∷ []) two_nodes [] []))
unfolding llm_router_server_dashbo.Base.Dict.lookup
place-IsPlaced_example = place-IsPlaced two_nodes [] [] ("m::a" ∷ []) "m::a"

abbrev settings : Settings
settings = record {
  auto_restart = true;
  max_restarts = 3;
  restart_backoff_base = 2_000;
  start_timeout = 300_000;
  start_timeout_text = "300";
}

abbrev pub running : Instance
running = record {
  key = "m::a";
  kind = llm;
  sleep_enabled = true;
  has_log = true;
  desired = want_running;
  state = ready;
  proc = some 7;
  managed = true;
  pid = some 7;
  last_error = none;
  started_at = some 0;
  ready_at = some 10;
  updated_at = 10;
  restart_count = 1;
  next_restart_at = none;
  was_failed = false;
  last_log_size = 0;
  last_progress_at = none;
}

abbrev crash : Signals
crash = record {
  exit_code = some "1";
  log_tail = "";
  probe_ok = false;
  log_size = none;
  now = 50_000;
}

reconcile_instance-IsReport_example :
    IsReport running
      (reconcile_instance settings crash running).0
      (reconcile_instance settings crash running).1
reconcile_instance-IsReport_example = reconcile_instance-IsReport settings crash running

abbrev crashed_run : Run settings running (reconcile_instance settings crash running).0
crashed_run = step (reconciled crash running) (done (reconcile_instance settings crash running).0)

no_reset : resets settings crashed_run ≡ false
unfolding reconcile_instance llm_router_server_dashbo.Fleet.Reconciler.check_process_exit
    llm_router_server_dashbo.Fleet.Reconciler.on_poll
    llm_router_server_dashbo.Fleet.Reconciler.on_exit
    llm_router_server_dashbo.Fleet.Reconciler.after_exit
    llm_router_server_dashbo.Fleet.Reconciler.maybe_schedule_restart
    llm_router_server_dashbo.Fleet.Instance.set_state llm_router_server_dashbo.Fleet.Instance.touch
no_reset = refl

Run-restarts_example : restarts settings crashed_run + 1 ≤ 3
Run-restarts_example = Run-restarts settings crashed_run (omega arith) no_reset

abbrev asleep : Instance
asleep = record running { state = sleeping }

-- One replica renews its lease, another fails to get it and gets it once it ran out.
abbrev tries : List (String × ℕ)
tries = ("a", 1_000) ∷ ("b", 2_000) ∷ ("a", 6_000) ∷ ("b", 22_000) ∷ []

abbrev lease : Lease
lease = record { holder = "a"; expires_at = 0 }

wins-Exclusive_example : Exclusive 15_000 "a" 0 (wins 15_000 (some lease) tries)
wins-Exclusive_example = wins-Exclusive 15_000 lease tries (omega arith)

wins_run : wins 15_000 (some lease) tries ≡ ("a", 1_000) ∷ ("a", 6_000) ∷ ("b", 22_000) ∷ []
unfolding wins llm_router_server_dashbo.Fleet.Leader.try_acquire_leader
    llm_router_server_dashbo.Fleet.Leader.upsert
wins_run = refl

abbrev notifier : Notifier
notifier = record {
  sinks = record { type_of = "slack"; url = "u"; min_severity = "error" } ∷ [];
  cooldown_s = 300;
  last_sent = λ model event. none;
}

abbrev alert : AlertEvent
alert = record {
  event = "model_failed";
  severity = "error";
  model = "m::a";
  kind = llm;
  detail = none;
  restart_count = 0;
  ts = 5;
}

abbrev alerts : List (ℕ × AlertEvent)
alerts = (10, record alert { severity = "info" }) ∷ (20, alert) ∷ (100, alert) ∷ (400, alert) ∷ []

sent_times-Apart_example :
    (sent_times "m::a" "model_failed" alerts notifier ≡ spaced 300 none (20 ∷ 100 ∷ 400 ∷ []))
    × Apart 300 none (sent_times "m::a" "model_failed" alerts notifier)
unfolding llm_router_server_dashbo.Fleet.Notifier.severity_rank
sent_times-Apart_example = sent_times-Apart "m::a" "model_failed" alerts notifier

sent_times_run : sent_times "m::a" "model_failed" alerts notifier ≡ 20 ∷ 400 ∷ []
unfolding sent_times llm_router_server_dashbo.Fleet.Notifier.notify
    llm_router_server_dashbo.Fleet.Notifier.suppressed
    llm_router_server_dashbo.Fleet.Notifier.severity_rank
sent_times_run = refl
