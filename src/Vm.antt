-- ===== src/Vm.antt =====
-- rust/src/calculation/vm_target_selector.rs: which Azure virtual machine and disks fit a workload.
pub mod Types
pub mod Text
pub mod Disks
pub mod Source
pub mod Prices
pub mod Reasons
pub mod Candidate
pub mod Select
pub mod Laws
