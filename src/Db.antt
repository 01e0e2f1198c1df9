-- ===== src/Db.antt =====
-- pkg/db: what is written to the database.
pub mod Columns
pub mod Names
pub mod BlockTables
pub mod TransactionTables
pub mod EpochTables
pub mod RewardTables
pub mod EventTables
pub mod Service
pub mod Persist
pub mod Calls
pub mod Aligned
pub mod Monitored
