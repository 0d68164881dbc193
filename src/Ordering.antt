-- ===== src/Ordering.antt =====
-- `std::cmp::Ordering`, comparators that are total preorders, and `sort_by`.
pub mod Orders
pub mod Sort
pub mod Extremes
pub use Orders.*
