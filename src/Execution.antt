-- ===== src/Execution.antt =====
-- What an execution of a pipeline does.
pub mod Cases
pub mod Returns
pub mod Rule
pub mod Evidence
pub mod Tracing
pub mod Passing
pub mod Verdicts
pub mod Decision
pub mod Explanation
pub mod Silence
pub mod Clients
pub mod Containers
pub mod Quoting
