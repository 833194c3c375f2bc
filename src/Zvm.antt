-- ===== src/Zvm.antt =====
-- zvm, the register machine: its locks, the objects that they guard, and the operations.
pub mod Lock
pub mod Heap
pub mod Word
pub mod Machine
pub mod Process
