-- ===== src/Preprocess/Expander.antt =====
-- lib/Preprocess/MacroExpander.cpp: expansion of macros in a text, with a bound on the depth.
mod Defs
pub mod Depth
pub mod Strings
pub mod Written
unfoldable pub use Defs.*
