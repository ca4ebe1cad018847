-- ===== src/Outbox.antt =====
-- The outbox of domain events and the durable cursor of a connector.
pub mod Store
mod Complete
mod Retry
mod Next
mod Tests
