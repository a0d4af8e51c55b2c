-- ===== src/Transport.antt =====
-- packages/transport/src: the stores behind the streamable HTTP transport.
pub mod EventStore
