-- ===== src/Notification.antt =====
-- The decision logic of backend/internal/notification.
pub mod Decide
pub mod Gates
mod Tests
