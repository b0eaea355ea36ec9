-- ===== src/Tools.antt =====
-- mcp_server: the registered read-only tools.
pub mod Registry
