-- ===== src/Fmt/Layout.antt =====
-- lib/Fmt/LayoutRenderer.cpp. A negative budget is possible in the source, so a budget is kept as the
-- column that is used up and the limit: `budget` is `limit - used`, and `w <= budget` is
-- `used + w <= limit`.
mod Render
pub mod Flat
pub mod Fits
pub mod Content
pub mod Column
unfoldable pub use Render.*
