-- ===== src/Monitor.antt =====
-- p4gitsync/src/p4gitsync/notifications, and services/circuit_breaker.py, services/integrity_checker.py
-- and services/integrity_compare.py: what watches over the synchronisation.
pub mod Silence
pub mod Report
pub mod Alerts
pub mod Notifier
pub mod Breaker
pub mod Compare
pub mod Verify
