-- ===== src/Slots/Evolution.antt =====
-- How a Slot changes: its version, its host and its state.
mod Defs
mod Bodies
mod Tables
mod Answers
mod Calls
pub mod History
pub use Defs.*
pub use Bodies.*
pub use Tables.*
pub use Calls.*
