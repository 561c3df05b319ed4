-- ===== src/Adapters/Vault.antt =====
-- internal/adapters/vault: the endpoint (endpoint.go) and the client's calls (client.go).
pub mod Endpoint
pub mod Client
