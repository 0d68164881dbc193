-- ===== src/Launches.antt =====
-- rust/src/persistence/calculator_launch.rs: one-time launches of the pricing calculator, which a
-- companion claims and acknowledges.
pub mod Types
pub mod Document
pub mod Repository
pub mod Changes
pub mod Reachable
pub mod Phases
pub mod Claims
pub mod Acknowledgement
