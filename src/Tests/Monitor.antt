-- ===== src/Tests/Monitor.antt =====
-- The monitors.
use p4sync_git.Prelude.{some, true, false, none, [], ◌∷◌}
use p4sync_git.Text.{codes}
use p4sync_git.Exec.{Result, ok}
use p4sync_git.Monitor.Silence.{SilenceDetector}
use p4sync_git.Monitor.Alerts.{Conditions, warnings}
use p4sync_git.Monitor.Breaker.{
  check_due_schedule, monthly_random, CheckSchedule, IntegrityResult, run_check,
}
use p4sync_git.Monitor.Breaker.Laws.{Settled, run_check-Settled}
use p4sync_git.Monitor.Notifier.{SlackNotifier, Message}
use p4sync_git.Tests.Data.{breaker}

abbrev detector : SilenceDetector
detector = record { threshold_seconds = 600; last_sync_time = 0; alerted = false }

abbrev conditions : Conditions
conditions = record {
  consecutive_failures = 3;
  error_text = none;
  is_integrity_failure = false;
  sync_delay_minutes = 0;
  pending_queue_size = 0;
  disk_usage_percent = 10;
}

abbrev failed : CheckSchedule → Result IntegrityResult
failed s = ok (record {
  passed = false;
  checked_files = 1;
  mismatched_files = codes "a" ∷ [];
  schedule = none;
  total_files = 1;
  strategy = codes "random";
})

run_check-Settled_example :
    Settled failed 9000000 breaker (some monthly_random) (run_check failed 9000000 breaker)
unfolding check_due_schedule
run_check-Settled_example = run_check-Settled failed 9000000 breaker

abbrev alert : Message
alert = record { channel = warnings; dedup_key = codes "sync"; continued = false }

abbrev notifier : SlackNotifier
notifier = record { sent_alerts = []; has_client = λ c. true; has_fallback = true; outbox = [] }
