-- ===== src/Agent.antt =====
-- The worker process of backend/app/worker: its executor, and the agent that polls the server.
pub mod Shell
pub mod Docker
pub mod Executor
pub mod Steps
pub mod Network
pub mod Client
