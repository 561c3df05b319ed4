-- ===== src/Adapters.antt =====
-- internal/adapters: what the program does itself round the daemons' clients.
pub mod AesCtr
pub mod Config
pub mod Grpc
pub mod Retry
pub mod Vault
pub mod Embedder
pub mod Envector
pub mod CaptureLog
