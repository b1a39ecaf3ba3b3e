-- ===== src/Lex/Stream.antt =====
-- The public class `Lexer` of lib/Lex/Lexer.cpp: the scanner behind the cache of looked-ahead tokens.
mod Defs
pub mod Refinement
pub mod Cover
unfoldable pub use Defs.*
