-- ===== src/Monitor/Report.antt =====
-- notifications/daily_report.py. A date is a number; durations are whole milliseconds, and the average
-- is kept as the sum of them, with the count of changelists. The text of the report is left out.
use p4sync_git.Prelude.{
  ℕ, ◌+◌, ◌≡◌, refl, Bool, false, Option, none, some, List, [], ◌∷◌, leb, ◌==◌, if◌then◌else◌,
}
use p4sync_git.Text.{Str, contains}

pub record DailyStats : Type 0 where
  pub processed_cls : ℕ
  pub failed_cls : ℕ
  pub total_errors : ℕ
  pub streams_synced : List Str
  pub sync_times : List ℕ

abbrev pub empty_stats : DailyStats
empty_stats = record {
  processed_cls = 0;
  failed_cls = 0;
  total_errors = 0;
  streams_synced = [];
  sync_times = [];
}

unfoldable pub record_stats_sync : Str → ℕ → DailyStats → DailyStats
record_stats_sync stream duration s = record s {
  processed_cls = s.processed_cls + 1;
  streams_synced =
      if contains s.streams_synced stream then s.streams_synced else stream ∷ s.streams_synced;
  sync_times = duration ∷ s.sync_times;
}

unfoldable pub record_error : DailyStats → DailyStats
record_error s = record s { total_errors = s.total_errors + 1; failed_cls = s.failed_cls + 1 }

pub record DailyReporter : Type 0 where
  pub report_hour : ℕ
  pub stats : DailyStats
  pub last_report_date : Option ℕ

abbrev same_date : ℕ → Option ℕ → Bool
same_date today none = false
same_date today (some d) = today == d

unfoldable pub should_send_report : ℕ → ℕ → DailyReporter → Bool
should_send_report today hour r =
    if same_date today r.last_report_date then false else leb r.report_hour hour

-- The statistics that the report shows, and the reporter that starts the next day's.
unfoldable pub generate_report : ℕ → DailyReporter → DailyStats × DailyReporter
generate_report today r = (r.stats, record r { last_report_date = some today; stats = empty_stats })

-- A report is sent once a day: after it none is due on that day at any hour, and on another day one
-- is due from the hour set.
pub report_once_a_day :
    (today hour other : ℕ) (r : DailyReporter)
    → should_send_report other hour (generate_report today r).1
      ≡ (if other == today then false else leb r.report_hour hour)
unfolding should_send_report generate_report
report_once_a_day today hour other r = refl
