-- ===== src/Basic/Diagnostics.antt =====
-- include/nsl/Basic/Diagnostic.h and lib/Basic/Diagnostic.cpp: the diagnostic engine.
mod Defs
pub mod Counts
pub mod Rendered
pub mod Json
pub mod Escapes
unfoldable pub use Defs.*
