-- ===== src/Json.antt =====
-- json-glib and GLib's base64, which the library calls and does not implement: their operations
-- are parameters. A pointer of json-glib is an abstract value, NULL included; `Option` stands
-- where the code tests a result for NULL.
mod Interface
pub mod Laws
pub mod Tree
pub use Interface.*
