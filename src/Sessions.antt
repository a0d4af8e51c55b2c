-- ===== src/Sessions.antt =====
-- apps/server/src and packages/transport/src: the sessions of clients.
pub mod McpSession
pub mod SessionStore
pub mod Streamable
