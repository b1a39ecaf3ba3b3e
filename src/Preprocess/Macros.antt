-- ===== src/Preprocess/Macros.antt =====
-- lib/Preprocess/MacroTable.cpp: macros by name, in the order in which they were inserted.
mod Defs
pub mod Entries
pub mod Laws
unfoldable pub use Defs.*
