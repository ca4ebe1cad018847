-- ===== src/Friend.antt =====
-- Friend requests and friendships. Each child says which file it is about.
pub mod Store
pub mod Service
pub mod Contract
mod Rows
mod Tidy
mod Refinement
mod Promise
mod Orderly
mod Tests
