-- ===== src/Engine/Libcrypto.antt =====
-- libjcat/jcat-libcrypto-pkcs7-engine.c with libjcat/jcat-libcrypto-common.c: the engine for PKCS-7
-- over OpenSSL. Messages to the debug log are left out.
pub mod Interface
pub mod Errors
pub mod Certificates
pub mod Verify
pub mod Signing
pub mod Class
pub mod Signatures
pub mod Accepts
