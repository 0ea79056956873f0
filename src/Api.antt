-- ===== src/Api.antt =====
-- backend/app/api: the handlers of the HTTP routes. A handler that raises `HTTPException` leaves
-- what it has committed.
pub mod Reply
pub mod Attempts
pub mod Workers
pub mod Projects
pub mod Jobs
pub mod Webhooks
pub mod Streams
