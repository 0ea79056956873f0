-- ===== src/Reporting.antt =====
-- Reports of workers: which are accepted, and what they do.
pub mod Acceptance
pub mod Outcome
pub mod Late
pub mod Refusals
pub mod Renewal
