-- ===== src/Preprocess/Driver.antt =====
-- lib/Preprocess/Preprocessor.cpp: the class `Preprocessor::Impl`, from the lines of a frame to the loop
-- over the frames.
mod State
mod Lines
mod Handlers
mod Loop
pub mod Emitted
pub mod Effects
pub mod Rounds
pub mod Growth
pub mod Sticky
pub mod Depth
pub mod Termination
pub mod Passing
mod Tests
unfoldable pub use State.*
unfoldable pub use Lines.*
unfoldable pub use Handlers.*
unfoldable pub use Loop.*
