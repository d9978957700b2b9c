-- ===== src/System.antt =====
-- The calls of GIO, of the file functions of GLib and of its string functions, for a type of worlds
-- that they read and change, and the helpers of libjcat/jcat-common.c on files.
pub mod Interface
pub mod Contents
pub mod Laws
pub mod Kept
pub mod Memory
pub use Interface.{Gio, pure, fail, lift, ◌>>=◌, ◌>>◌}
