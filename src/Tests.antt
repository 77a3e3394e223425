-- ===== src/Tests.antt =====
-- Runs at concrete data, and the theorems at them.
mod Sample
mod Demo
mod AgentRuns
mod Histories
mod Sweeps
mod Cleanups
mod Callers
mod Replies
mod Windows
