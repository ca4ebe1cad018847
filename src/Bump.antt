-- ===== src/Bump.antt =====
-- BUMP: proof that two participants of a Slot met (backend/internal/bump, postgres/bump_store.go).
pub mod Store
mod Credit
pub mod Mutual
pub mod Nonce
mod Tests
