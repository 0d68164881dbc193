-- ===== src/Cost.antt =====
-- rust/src/calculation/cost.rs: the annual costs of a workload at its source and in Azure.
pub mod Types
pub mod Rates
pub mod Volumes
pub mod Source
pub mod Azure
pub mod Signs
pub mod Bounds
pub mod Iops
pub mod Tiers
