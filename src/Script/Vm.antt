-- ===== src/Script/Vm.antt =====
-- The Falcon virtual machine: its state, its steps, and what is proved of them.
pub mod State
pub mod Step
pub mod Dispatch
pub mod HostCall
pub mod Budget
pub mod Runs
