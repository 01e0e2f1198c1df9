-- ===== src/Metrics.antt =====
-- pkg/spec/metrics: what the validators of an epoch could have earned, and what they did earn.
pub mod Base
pub mod Slashings
pub mod Rewards
pub mod Votes
pub mod Altair
pub mod Deneb
pub mod Order
pub mod Ordering
pub mod Flags
pub mod SlashingRewards
pub mod Phase0
pub mod EpochReward
pub mod Delays
pub mod Lookups
pub mod Export
