-- ===== src/Domain.antt =====
-- rust/src/domain: the workload resources and the project settings.
pub mod Resource
pub mod Project
