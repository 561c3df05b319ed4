-- ===== src/Service/Lifecycle.antt =====
-- internal/service/lifecycle.go: the service of the operational tools. What it asks of the manager, of
-- the clients, of the config file and of the host is an interface; the manager is not nil.
pub mod Host
pub mod Reload
pub mod Activate
pub mod Watcher
pub mod Configure
pub mod Status
pub mod Diagnostics
pub mod Delete
pub mod History
