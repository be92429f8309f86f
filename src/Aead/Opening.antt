-- ===== src/Aead/Opening.antt =====
-- Messages sealed by btls/src/aead.rs, with plaintext on the side, and opened again.
