-- ===== src/Fmt/Diff.antt =====
-- lib/Fmt/Diff.cpp: the line diff by a table of longest common subsequences.
mod Defs
pub mod Script
unfoldable pub use Defs.*
