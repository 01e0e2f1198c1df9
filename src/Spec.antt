-- ===== src/Spec.antt =====
-- pkg/spec: the data model of the analyzer.
pub mod Constants
pub mod Slot
pub mod Slashing
pub mod Intersection
pub mod Duties
pub mod Block
pub mod Forks
pub mod Transactions
pub mod State
pub mod Rewards
