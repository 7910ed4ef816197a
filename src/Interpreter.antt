-- ===== src/Interpreter.antt =====
-- src/core/WorkItem.cpp and TypedValue of src/core/common.cpp: the interpreter of a work-item.
pub mod Values
pub mod Integers
pub mod Vectors
pub mod Builtins
pub mod Queries
pub mod Code
pub mod WorkItem
pub mod Machine
mod Examples
