-- ===== src/Guard.antt =====
-- The process guard, executor/process_guard.go: a loop that starts the services that have stopped, and
-- the buttons of the panel that pause it.
pub mod Service
pub mod Steps
pub mod Outages
mod Examples
