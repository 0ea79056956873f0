-- ===== src/Consistency/Moves.antt =====
-- The invariant under the moves that the operations make of the tables.
mod Unique
mod Settle
mod Touch
mod Retry
mod Create
pub use Unique.{active_unique}
pub use Settle.{settle}
pub use Touch.{touch}
pub use Retry.{retry}
pub use Create.{create}
