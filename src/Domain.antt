-- ===== src/Domain.antt =====
-- internal/domain: the core types, with no dependency on the other parts.
pub mod Errors
pub mod Calendar
pub mod Query
pub mod Record
pub mod Extraction
pub mod Capture
