-- ===== src/Tests.antt =====
-- The theorems at concrete inputs, and the values that they are taken at.
mod Data
mod Root
mod Spec
mod Metrics
mod Lookups
mod Utils
mod Analyzer
mod Chain
mod Routines
mod Database
mod Client
