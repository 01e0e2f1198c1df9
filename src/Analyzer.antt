-- ===== src/Analyzer.antt =====
-- pkg/analyzer: the cache of downloaded blocks and states, and the windows of aggregated rewards.
pub mod AgnosticMap
pub mod Waiting
pub mod ChainCache
pub mod HeadBlock
pub mod CleanUp
pub mod Aggregation
pub mod Gathering
pub mod Windows
pub mod Calls
pub mod Chain
pub mod ProcessBlock
pub mod BlockRewards
pub mod ProcessState
pub mod Transition
pub mod Download
pub mod Reorg
pub mod Routines
pub mod Frame
pub mod FrameEpoch
pub mod FrameReorg
pub mod TaskEffects
pub mod Pages
pub mod BlockWrites
pub mod Finality
pub mod Historical
