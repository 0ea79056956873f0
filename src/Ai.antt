-- ===== src/Ai.antt =====
-- backend/app/ai: the failure analyzer.
pub mod Schemas
pub mod Context
pub mod Mock
pub mod Anthropic
pub mod Analyzer
pub mod Rows
pub mod Validation
pub mod Excerpts
