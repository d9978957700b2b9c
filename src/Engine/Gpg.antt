-- ===== src/Engine/Gpg.antt =====
-- libjcat/jcat-gpg-engine.c: the engine that verifies with GPGME, in a build that is not for Windows.
-- Messages to the debug log are left out.
pub mod Interface
pub mod Setup
pub mod Verify
pub mod Signatures
