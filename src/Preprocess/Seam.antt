-- ===== src/Preprocess/Seam.antt =====
-- lib/Preprocess/Preprocessor.cpp: the two scans of a line that passes through,
-- `scanForHelperOnPassthrough` and `scanForFloatOnPassthrough`.
mod Defs
unfoldable pub use Defs.*
