-- ===== src/Basic/Manager.antt =====
-- lib/Basic/SourceManager.cpp: the buffers by FileID, and the frames of the active includes.
mod Defs
pub mod Files
pub mod Includes
pub mod Grows
unfoldable pub use Defs.*
