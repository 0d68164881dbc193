-- ===== src/Shares.antt =====
-- rust/src/persistence/project_share.rs: shares of a project, which a secret opens for thirty days.
pub mod Types
pub mod Repository
pub mod Laws
pub mod Revocation
