-- ===== src/Slots/Soundness.antt =====
-- Every transaction keeps every Slot sound.
mod Tables
mod Answers
mod Calls
pub mod System
pub use Tables.*
pub use Calls.*
