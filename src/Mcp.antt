-- ===== src/Mcp.antt =====
-- internal/mcp: the gate of the tools and their handlers (state.go, handlers.go, result.go), and the
-- wiring of the clients (tools.go).
pub mod State
pub mod Handlers
pub mod Tools
pub mod Wiring
