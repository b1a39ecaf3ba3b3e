-- ===== src/Lsp/PositionEncoding.antt =====
-- lib/LSP/PositionEncoding.cpp: byte offsets in a UTF-8 line and columns in UTF-16 units.
mod Defs
pub mod Columns
pub mod Offsets
pub mod Inverse
unfoldable pub use Defs.*
