-- ===== src/Monitor/Notifier.antt =====
-- notifications/notifier.py: the suppression of repeated alerts. The three webhook clients are `has_client`,
-- whether one is set; a text sent is a pair of channel and key, and the texts are left out.
pub mod Laws
use p4sync_git.Prelude.{
  ℕ, ◌+◌, Bool, true, false, Option, none, some, List, [], ◌∷◌, ◌++◌, ltb, leb, if◌then◌else◌,
  is_some,
}
use p4sync_git.Text.{Str, str_eq}
use p4sync_git.Sql.{fetch_one, upsert, delete_where}
use p4sync_git.Monitor.Alerts.{Channel, alerts, warnings, infos}

abbrev pub dedup_window_seconds : ℕ
dedup_window_seconds = 86400

pub record Message : Type 0 where
  pub channel : Channel
  pub dedup_key : Str
  pub continued : Bool

pub record SlackNotifier : Type 0 where
  pub sent_alerts : List (Str × ℕ)
  pub has_client : Channel → Bool
  pub has_fallback : Bool
  pub outbox : List Message

abbrev pub Sent : Type 0
Sent = Str × ℕ

unfoldable pub last_sent : Str → SlackNotifier → Option Sent
last_sent key n = fetch_one (λ e. str_eq e.0 key) n.sent_alerts

abbrev is_recent : ℕ → Option Sent → Bool
is_recent now none = false
is_recent now (some e) = ltb now (e.1 + dedup_window_seconds)

unfoldable pub is_duplicate : ℕ → Str → SlackNotifier → Bool
unfolding last_sent
is_duplicate now key n = is_recent now (last_sent key n)

-- whether the text gets the prefix of an alert that goes on
unfoldable pub get_dedup_prefix : Str → SlackNotifier → Bool
unfolding last_sent
get_dedup_prefix key n = is_some (last_sent key n)

abbrev remember : Str → ℕ → List Sent → List Sent
remember [] now sent = sent
remember (c ∷ key) now sent =
    upsert (λ e. str_eq e.0 (c ∷ key)) (λ e. (e.0, now)) (c ∷ key, now) sent

abbrev suppressed : ℕ → Str → SlackNotifier → Bool
suppressed now [] n = false
suppressed now (c ∷ key) n = is_duplicate now (c ∷ key) n

-- `delivered` is whether the webhook call returned.
unfoldable pub send_to_channel : ℕ → Bool → Message → SlackNotifier → SlackNotifier
unfolding is_duplicate
send_to_channel now delivered m n =
    if suppressed now m.dedup_key n
    then n
    else if (if n.has_client m.channel then true else n.has_fallback)
    then (if delivered
        then record n {
          outbox = m ∷ n.outbox;
          sent_alerts = remember m.dedup_key now n.sent_alerts;
        }
        else n)
    else n

unfoldable pub cleanup_expired_alerts : ℕ → SlackNotifier → SlackNotifier
cleanup_expired_alerts now n = record n {
  sent_alerts = delete_where (λ (e : Sent). leb (e.1 + dedup_window_seconds) now) n.sent_alerts;
}
