-- ===== src/Monetization.antt =====
-- LinkUp+: premium grants, the rewarded quest, purchases and referrals. Each child says which file it is about.
pub mod Model
pub mod Rewarded
pub mod Purchase
pub mod Referral
pub mod Service
mod Quest
mod Counters
mod Earned
mod Awards
mod AwardLoop
mod Qualified
mod Settled
mod Recorded
mod Entitlement
mod Replay
mod Codes
mod Bound
mod Viewed
mod Reachable
mod Promises
mod Permanent
mod Tests
