-- ===== src/Slots/Once.antt =====
-- A mutation with an idempotency key is done at most once.
pub mod Claims
mod Lifting
pub mod Kept
pub mod AtMostOnce
pub mod Retries
mod Served
pub mod Later
