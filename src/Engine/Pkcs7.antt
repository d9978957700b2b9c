-- ===== src/Engine/Pkcs7.antt =====
-- libjcat/jcat-gnutls-pkcs7-engine.c with libjcat/jcat-gnutls-common.c: the engine for PKCS-7 over
-- GnuTLS. Messages to the debug log are left out.
pub mod Interface
pub mod Errors
pub mod Certificates
pub mod TrustLists
pub mod Verify
pub mod Signing
pub mod Class
pub mod Counts
pub mod Signatures
pub mod Accepts
pub mod Latest
pub mod PublicKeys
