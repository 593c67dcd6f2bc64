-- ===== src/Monitor/Alerts.antt =====
-- notifications/alert_classifier.py. Percentages and minutes are whole numbers.
use p4sync_git.Prelude.{
  ℕ, ◌≤◌, ◌<◌, ◌≡◌, ◌⊎◌, Bool, true, false, Option, none, some, List, [], ◌∷◌, arith, leb, ltb, any,
  if◌then◌else◌,
}
use p4sync_git.Text.{Str, codes, has_substring}

pub data AlertLevel : Type 0 where
  error warn info : AlertLevel

pub data Urgency : Type 0 where
  immediate standard : Urgency

abbrev immediate_keywords : List Str
immediate_keywords =
    codes "ENOSPC"
    ∷ codes "No space left on device"
    ∷ codes "MemoryError"
    ∷ codes "Out of memory"
    ∷ codes "OOM"
    ∷ codes "Cannot allocate memory"
    ∷ []

abbrev connection_keywords : List Str
connection_keywords =
    codes "Connection refused"
    ∷ codes "Connection timed out"
    ∷ codes "ConnectionError"
    ∷ codes "ConnectionResetError"
    ∷ codes "P4Exception"
    ∷ []

abbrev pub names_one : List Str → Str → Bool
names_one keywords e = any (λ k. has_substring k e) keywords

unfoldable pub classify_error : Str → Urgency
unfolding has_substring
classify_error e =
    if names_one immediate_keywords e
    then immediate
    else if names_one connection_keywords e
    then immediate
    else standard

abbrev is_immediate : Urgency → Bool
is_immediate immediate = true
is_immediate standard = false

-- `error and self.classify_error(error) == "immediate"`: no error and an empty one are falsy.
abbrev pub has_immediate : Option Str → Bool
has_immediate none = false
has_immediate (some []) = false
has_immediate (some (c ∷ e)) = is_immediate (classify_error (c ∷ e))

pub record Conditions : Type 0 where
  pub consecutive_failures : ℕ
  pub error_text : Option Str
  pub is_integrity_failure : Bool
  pub sync_delay_minutes : ℕ
  pub pending_queue_size : ℕ
  pub disk_usage_percent : ℕ

unfoldable pub classify_level : Conditions → AlertLevel
classify_level c =
    if c.is_integrity_failure
    then error
    else if has_immediate c.error_text
    then error
    else if leb 3 c.consecutive_failures
    then error
    else if ltb 5 c.sync_delay_minutes
    then warn
    else if ltb 100 c.pending_queue_size
    then warn
    else if ltb 85 c.disk_usage_percent
    then warn
    else info

pub data Channel : Type 0 where
  alerts warnings infos : Channel

unfoldable pub get_channel_key : AlertLevel → Channel
get_channel_key error = alerts
get_channel_key warn = warnings
get_channel_key info = infos

-- The level is ERROR only in one of the three conditions of an error, and INFO only if no
-- condition of an error or a warning holds.
pub classify_level_lem :
    (c : Conditions)
    → (classify_level c ≡ error
        → (c.is_integrity_failure ≡ true)
          ⊎ ((has_immediate c.error_text ≡ true) ⊎ (3 ≤ c.consecutive_failures)))
      × (classify_level c ≡ info
          → (c.is_integrity_failure ≡ false)
            × (has_immediate c.error_text ≡ false)
            × (c.consecutive_failures < 3)
            × (c.sync_delay_minutes ≤ 5)
            × (c.pending_queue_size ≤ 100)
            × (c.disk_usage_percent ≤ 85))
unfolding classify_level
classify_level_lem c = (λ h. ground arith, λ h. ground arith)
