-- ===== src/Guardian.antt =====
-- The links by which a participant lets somebody watch over a meeting.
pub mod Store
mod Burned
mod Live
mod Tests
