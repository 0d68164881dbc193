-- ===== src/SqlPayg.antt =====
-- Azure SQL pay-as-you-go against Software Assurance: rust/src/calculation/sql_payg.rs.
-- `calculate` checks its four inputs in order and prices the licensed cores; a stored analysis that
-- an older version wrote is read through a wire type whose missing fields are filled in.
pub mod Types
pub mod Calculate
pub mod Laws
