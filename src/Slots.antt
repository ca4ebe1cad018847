-- ===== src/Slots.antt =====
-- The Slot component: internal/slot, and the stores of internal/postgres that own its tables.
pub mod Model
pub mod Rows
pub mod Tables
pub mod Idempotency
pub mod Transaction
pub mod Social
pub mod Waitlist
pub mod Hosting
pub mod Blocking
pub mod Store
pub mod Service
pub mod System
pub mod Roster
pub mod Promotion
pub mod Invariant
pub mod Soundness
pub mod Evolution
pub mod Once
mod Tests
