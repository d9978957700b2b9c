-- ===== src/Bt.antt =====
-- libjcat/jcat-bt-checkpoint.c and libjcat/jcat-bt-verifier.c: the text files of a transparency log.
pub mod Split
pub mod Checkpoint
pub mod Verifier
pub mod Valid
pub mod Notes
pub mod Memory
