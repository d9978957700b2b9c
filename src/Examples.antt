-- ===== src/Examples.antt =====
-- Runs of the models on concrete values, and the theorems applied to them.
mod Storage
mod Verification
mod Names
mod Printing
mod Transparency
mod Disk
mod Ed25519
mod Gpg
mod Commands
mod Pkcs7
mod Libcrypto
