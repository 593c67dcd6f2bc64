-- ===== src/Monitor/Silence.antt =====
-- notifications/silence_detector.py; a time is a number of seconds.
use p4sync_git.Prelude.{ℕ, ◌+◌, ◌*◌, ◌≤◌, ◌≡◌, Bool, true, false, not, arith, leb, if◌then◌else◌}

pub record SilenceDetector : Type 0 where
  pub threshold_seconds : ℕ
  pub last_sync_time : ℕ
  pub alerted : Bool

-- `__init__`
unfoldable pub silence_detector : ℕ → ℕ → SilenceDetector
silence_detector threshold_minutes now = record {
  threshold_seconds = threshold_minutes * 60;
  last_sync_time = now;
  alerted = false;
}

unfoldable pub record_sync : ℕ → SilenceDetector → SilenceDetector
record_sync now d = record d { last_sync_time = now; alerted = false }

unfoldable pub check : ℕ → Bool → SilenceDetector → Bool × SilenceDetector
check now p4_has_recent_activity d =
    if d.alerted
    then (false, d)
    else if not p4_has_recent_activity
    then (false, d)
    else if leb (d.last_sync_time + d.threshold_seconds) now
    then (true, record d { alerted = true })
    else (false, d)

-- An alert is raised, while P4 is active, only if none has been raised since the last
-- synchronisation, and that is at least the threshold ago; after it no check raises one until
-- the next synchronisation, which allows the next alert a threshold later and no sooner.
pub check_once :
    (now later sync last : ℕ) (active : Bool) (d : SilenceDetector)
    → (check now true d).0 ≡ true
    → (d.last_sync_time + d.threshold_seconds ≤ now)
      × (d.alerted ≡ false)
      × ((check later active (check now true d).1).0 ≡ false)
      × ((check last true (record_sync sync (check now true d).1)).0
          ≡ leb (sync + d.threshold_seconds) last)
unfolding check record_sync
check_once now later sync last active d h = ground arith
