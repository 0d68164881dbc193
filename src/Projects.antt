-- ===== src/Projects.antt =====
-- The stored projects: rust/src/persistence/repository.rs.
-- A repository is a map from an owner and a project to a document and its version, behind a lock.
-- Every operation reads and writes it under the lock, so a run of the service is a sequence of
-- operations. The clock, the new identifiers and `serde_json` are parameters: `Services`.
pub mod Types
pub mod Document
pub mod Repository
pub mod Etag
pub mod Store
