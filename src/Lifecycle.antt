-- ===== src/Lifecycle.antt =====
-- internal/lifecycle: the boot loop and the state machine, and what triggers it (internal/recovery).
pub mod Boot
pub mod Retrigger
pub mod Interceptor
pub mod Classify
pub mod Shutdown
pub mod Await
