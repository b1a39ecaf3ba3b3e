-- ===== src/Lex/Scanner.antt =====
-- `Lexer::Impl` of lib/Lex/Lexer.cpp. The buffer and the cursor are kept as the offset `cur` and the
-- bytes `rest` from there on, so `buf[cur]` is the first byte of `rest` and `buf.substr(begin, n)` is
-- `take n rest` at the offset `begin`. Diagnostics are collected in the order of the reports.
mod State
mod Trivia
mod Scans
mod Punctuation
mod Dispatch
unfoldable pub use State.*
unfoldable pub use Trivia.*
unfoldable pub use Scans.*
unfoldable pub use Punctuation.*
unfoldable pub use Dispatch.*
