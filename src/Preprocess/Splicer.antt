-- ===== src/Preprocess/Splicer.antt =====
-- lib/Preprocess/IdentSplicer.cpp: the references `%NAME%` of a line.
mod Defs
pub mod Plain
unfoldable pub use Defs.*
