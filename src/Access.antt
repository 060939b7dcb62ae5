-- ===== src/Access.antt =====
-- Who may talk to the panel: the tables of login attempts and of bans, and the handlers that stand
-- before the panel's own: middleware/login_attempt.go, middleware/basic_auth.go,
-- middleware/scan_defense.go, middleware/csrf.go and middleware/random_path.go; and the bans that
-- executor/fail2ban.go records.
pub mod Bans
pub mod Login
pub mod Counting
pub mod Visits
pub mod Lockout
pub mod Spared
pub mod Scan
pub mod Csrf
pub mod Ladder
pub mod Escalation
pub mod Manual
pub mod Verdict
mod Examples
