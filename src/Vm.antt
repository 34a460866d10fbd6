-- ===== src/Vm.antt =====
-- crates/icn-covm/src/vm and typed.rs: the values, the memory and the machine.
pub mod Error
pub mod Values
pub mod Memory
pub mod Types
pub mod Stack
pub mod Execution
pub mod Machine
pub mod Interpreter
pub mod InMemoryHost
pub mod Tests
