-- ===== src/Tests.antt =====
-- A transport and a connection of a few lines, and each theorem applied to them.
pub mod Engine
pub mod Runs
pub mod Builders
pub mod Hashes
pub mod Callbacks
pub mod Connections
pub mod Ciphers
pub mod Errors
pub mod Aeads
pub mod Chains
pub mod Texts
pub mod Quic
