-- ===== src/Monitor/Notifier/Laws.antt =====
-- How long an alert is suppressed.
use p4sync_git.Prelude.{ℕ, ◌+◌, ◌≡◌, ◌≢◌, refl, true, false, [], ◌∷◌, arith, ltb, leb, Option-cases}
use p4sync_git.Text.{Str, str_eq}
use p4sync_git.Text.Laws.{str_eq_iff, str_eq_refl}
use p4sync_git.Sql.{fetch_one}
use p4sync_git.Sql.Laws.{fetch_one-upsert, HasUniqueKeys, fetch_one-delete_where}
use p4sync_git.Monitor.Notifier.{
  Message, SlackNotifier, Sent, dedup_window_seconds, is_duplicate, send_to_channel,
  cleanup_expired_alerts, last_sent,
}

-- one time for each key, as in the dictionary
abbrev pub HasKeys : SlackNotifier → Type 0
HasKeys n = HasUniqueKeys str_eq str_eq_iff (λ (e : Sent). e.0) n.sent_alerts

-- Cleaning up changes no decision from then on: whether an alert is suppressed at that time or later
-- is as it was.
pub is_duplicate-cleanup :
    (now wait : ℕ) (key : Str) (n : SlackNotifier)
    → HasKeys n
    → is_duplicate (now + wait) key (cleanup_expired_alerts now n) ≡ is_duplicate (now + wait) key n
unfolding is_duplicate cleanup_expired_alerts last_sent
is_duplicate-cleanup now wait key n u =
    rw
      (fetch_one-delete_where str_eq str_eq_iff (λ (e : Sent). e.0) key
        (λ (e : Sent). leb (e.1 + dedup_window_seconds) now) n.sent_alerts u)
      (ground (arith, Option-cases (fetch_one (λ (e : Sent). str_eq e.0 key) n.sent_alerts)))

delivered-is_duplicate :
    (now later : ℕ) (key : Str) (m : Message) (n : SlackNotifier)
    → m.dedup_key ≡ key
    → key ≢ []
    → is_duplicate now key n ≡ false
    → n.has_client m.channel ≡ true
    → is_duplicate later key (send_to_channel now true m n) ≡ ltb later (now + dedup_window_seconds)
unfolding is_duplicate send_to_channel last_sent
delivered-is_duplicate now later [] m n e k d c = absurd (k refl)
delivered-is_duplicate now later (x ∷ key) m n e k d c =
    rw (e, d, c)
      (ground (
        arith,
        str_eq_refl (x ∷ key),
        Option-cases (fetch_one (λ (r : Sent). str_eq r.0 (x ∷ key)) n.sent_alerts),
        fetch_one-upsert str_eq str_eq_iff (λ (r : Sent). r.0) (x ∷ key) (x ∷ key) (λ r. (r.0, now))
            (x ∷ key, now) n.sent_alerts refl (λ r. refl),
      ))

-- An alert with a key, not suppressed and with a webhook of its own, is suppressed once
-- delivered for the next 24 hours and no longer.
pub send_to_channel-is_duplicate :
    (now later : ℕ) (m : Message) (n : SlackNotifier)
    → m.dedup_key ≢ []
    → is_duplicate now m.dedup_key n ≡ false
    → n.has_client m.channel ≡ true
    → is_duplicate later m.dedup_key (send_to_channel now true m n)
      ≡ ltb later (now + dedup_window_seconds)
send_to_channel-is_duplicate now later m n k d c =
    delivered-is_duplicate now later m.dedup_key m n refl k d c
