-- ===== src/Alert.antt =====
-- The alert monitor, executor/alert_monitor.go. The children: Texts has what its notices say, Rules the
-- rules with `runChecks`, Expiry the check for expiring sites, Sites
-- the check of the sites' answers.
pub mod Texts
pub mod Rules
pub mod Expiry
pub mod Sites
pub mod Streak
pub mod Calls
pub mod Sustained
pub mod Log
pub mod Recovery
mod Examples
