-- ===== src/Json/Tree.antt =====
-- An implementation of the interface to json-glib by trees, which meets its laws: a node is the
-- value that it stands for. It serves as the example that the laws can hold.
mod Build
mod Document
mod Meets
pub use Meets.{trees, trees_laws, plain, plain_laws}
