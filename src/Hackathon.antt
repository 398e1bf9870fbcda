-- ===== src/Hackathon.antt =====
-- apps/hackathons: team formation, capacity, payments and withdrawals of one hackathon.
pub mod Model
pub mod Monad
pub mod Outcome
pub mod Store
pub mod Registration
pub mod Team
pub mod Waitlist
pub mod Staff
pub mod Rounds
pub mod Judging
pub mod Leaderboard
pub mod CheckIn
pub mod Withdrawals
pub mod Payments
mod Tests
