-- ===== src/Consistency.antt =====
-- The invariant that ties the jobs to their attempts.
mod Defs
mod Later
pub mod Expiry
pub mod Burial
pub mod Queues
pub mod Frames
pub mod Attempts
pub mod Requests
pub mod Reachable
pub mod Moves
pub mod Leases
pub mod Reports
pub use Defs.*
pub use Later.*
