-- ===== src/Lsp.antt =====
-- lib/LSP: the conversion between byte offsets and UTF-16 columns of a line.
pub mod PositionEncoding
mod Tests
