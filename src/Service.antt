-- ===== src/Service.antt =====
-- internal/service: the flows of capture and recall over the external services.
pub mod Backend
pub mod Recovery
pub mod Recall
pub mod Capture
pub mod Lifecycle
