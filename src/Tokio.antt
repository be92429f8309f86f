-- ===== src/Tokio.antt =====
-- tokio-btls/src/lib.rs
pub mod Limits
pub mod Budget
pub mod Packer
pub mod Host
pub mod WriteBuffer
pub mod ReadBuffer
pub mod Wrapper
pub mod Write
pub mod Poll
