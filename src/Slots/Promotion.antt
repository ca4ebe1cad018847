-- ===== src/Slots/Promotion.antt =====
-- What a promotion from the waitlist does (`promoteOldestWaitlistTx` and the loops around it).
mod Queue
mod Outcome
mod Rounds
mod Fairness
pub use Queue.*
pub use Outcome.*
pub use Fairness.*
pub use Rounds.*
