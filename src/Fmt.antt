-- ===== src/Fmt.antt =====
-- lib/Fmt: the layout documents of the formatter, their renderer, and the diff of its `--check`.
pub mod Doc
pub mod Layout
pub mod Diff
mod Tests
