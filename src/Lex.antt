-- ===== src/Lex.antt =====
-- lib/Lex and include/nsl/Lex: the scanner that turns a buffer into tokens.
pub mod Kind
pub mod Keyword
pub mod Number
pub mod Scanner
pub mod Bounds
pub mod Gaps
pub mod Tiling
pub mod Stream
mod Tests
