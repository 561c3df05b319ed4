-- ===== src/Service/Recall.antt =====
-- internal/service/recall.go: the flow of a recall. The log lines are left out.
pub mod Metadata
pub mod Search
pub mod Groups
pub mod Filter
pub mod Expand
pub mod Answer
pub mod Flow
