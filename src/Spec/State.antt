-- ===== src/Spec/State.antt =====
-- pkg/spec/state.go: the fork-independent beacon state and its operations.
pub mod Defs
pub mod Status
pub mod Partition
pub mod Balances
pub mod Flows
pub mod Withdrawals
pub mod Missed
pub mod Flags
pub mod MissingCount
pub mod Setup
pub mod SetupTotal
pub use Defs.{AgnosticState}
