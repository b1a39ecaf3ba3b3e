-- ===== src/Lex/Number.antt =====
-- lib/Lex/NumberLiteral.cpp: the numeric-literal scanner. The source works on `(buf, cur)`; here a
-- scanner is given the bytes from `cur` on and returns how many it passes, so `end` of the source is
-- `cur + len`.
mod Run
mod Scan
pub mod Grammar
pub mod Sound
pub mod Documented
unfoldable pub use Run.*
unfoldable pub use Scan.*
