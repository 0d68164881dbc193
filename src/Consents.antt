-- ===== src/Consents.antt =====
-- rust/src/persistence/privacy_consent.rs: what a user has agreed to, and whether they may be contacted.
pub mod Repository
pub mod Laws
