-- ===== src/Chat.antt =====
-- The chat of a Slot and the bill splitter. Each child says which file it is about.
pub mod Store
pub mod Bill
mod Fair
mod Sending
mod Recent
mod Tests
