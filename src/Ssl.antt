-- ===== src/Ssl.antt =====
-- btls/src/ssl: errors, the interface to BoringSSL, record sealing and the blocking TLS stream.
pub mod Error
pub mod Boring
pub mod Seal
pub mod Ech
pub mod Stream
pub mod Async
pub mod Connector
pub mod Verify
pub mod Quic
pub mod Callbacks
