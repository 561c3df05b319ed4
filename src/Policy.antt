-- ===== src/Policy.antt =====
-- internal/policy: the pure rules of capture and recall.
pub mod Truncate
pub mod Regexp
pub mod Redact
pub mod Novelty
pub mod Rerank
pub mod Query
pub mod Payload
pub mod Evidence
pub mod Draft
pub mod Builder
