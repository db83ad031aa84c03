-- ===== src/Vm.antt =====
-- The virtual machine, src/vm.
pub mod Stack
pub mod Memory
pub mod Context
pub mod Alu
pub mod Step
pub mod Thunks
pub mod Loader
pub mod Tests
