-- ===== src/Finality.antt =====
-- The rows of closed jobs: those that have succeeded, failed or errored.
pub mod Defs
pub mod Leases
pub mod Sweeps
pub mod Requests
