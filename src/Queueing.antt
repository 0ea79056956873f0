-- ===== src/Queueing.antt =====
-- What the queues promise.
pub mod Scores
pub mod Entries
pub mod Creation
pub mod Claims
pub mod Pushes
pub mod Promotion
pub mod Recovery
pub mod Waiting
pub mod Abandoned
pub mod Delayed
pub mod Kept
pub mod Steady
pub mod Ticks
