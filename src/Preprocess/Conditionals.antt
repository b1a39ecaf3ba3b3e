-- ===== src/Preprocess/Conditionals.antt =====
-- lib/Preprocess/Preprocessor.cpp: the stack of conditional frames.
mod Defs
pub mod Blocks
unfoldable pub use Defs.*
