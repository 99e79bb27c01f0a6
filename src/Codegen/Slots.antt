-- ===== src/Codegen/Slots.antt =====
-- The temporaries of the code generator: every slot of the stack frame is held or free, and never both.
pub mod Rules
mod Steps
mod Quiet
pub mod Nodes
mod Branches
mod Calls
mod Try
pub mod Tree
pub mod Root
