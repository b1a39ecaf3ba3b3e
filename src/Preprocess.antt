-- ===== src/Preprocess.antt =====
-- lib/Preprocess: the macro table, the expansion of macros, and the directives with their conditions.
pub mod Macros
pub mod Expander
pub mod Directives
pub mod Conditionals
pub mod Search
pub mod Helpers
pub mod Splicer
pub mod Seam
pub mod Driver
mod Tests
mod LineTests
