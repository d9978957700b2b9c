-- ===== src/Engine/Ed25519.antt =====
-- libjcat/jcat-gnutls-ed25519-engine.c: the engine for ED25519 signatures by GnuTLS.
pub mod Interface
pub mod Keys
pub mod Signing
pub mod Verify
pub mod Accepts
pub mod OwnKeys
