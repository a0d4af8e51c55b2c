-- ===== src/UpstreamAuth.antt =====
-- packages/upstream-auth/src: credentials for upstream servers.
pub mod Keyring
pub mod Vault
pub mod Credentials
pub mod Admin
pub mod Example
pub mod Tokens
