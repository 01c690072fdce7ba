-- ===== src/Mcp.antt =====
-- infomesh/mcp: the server that agents talk to.
pub mod Session
