-- ===== src/Vm.antt =====
-- The virtual machine (nucleus/vm/).
pub mod Types
pub mod Links
pub mod Slotmap
pub mod Slotlist
pub mod ObjList
pub mod Text
pub mod Table
pub mod Fix
pub mod Interpreter
pub mod Machine
