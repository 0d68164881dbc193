-- ===== src/Target.antt =====
-- rust/src/calculation/target_selector.rs: which SQL Managed Instance configuration fits a workload.
pub mod Types
pub mod Candidate
pub mod Fallback
pub mod Select
pub mod Eligible
pub mod Ranking
pub mod Outcome
pub mod Iops
pub mod Report
pub mod Capacity
