-- ===== src/Basic.antt =====
-- include/nsl/Basic and lib/Basic: packed source locations, the line table and the source manager.
pub mod Location
pub mod Lines
pub mod Directives
pub mod Manager
pub mod Diagnostics
mod Tests
