-- ===== src/Tests.antt =====
-- Concrete runs.
mod Keys
mod Tables
mod Scores
mod Machine
mod Scenario
mod Witnesses
mod QueueWitnesses
mod RequestWitnesses
mod RetryWitnesses
pub mod Daemon
mod AgentRuns
mod AgentWitnesses
