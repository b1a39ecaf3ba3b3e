-- ===== src/Preprocess/Directives.antt =====
-- lib/Preprocess/DirectiveParser.cpp: what a line says, and its parts.
mod Defs
pub mod Printed
unfoldable pub use Defs.*
