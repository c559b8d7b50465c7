-- ===== src/Interp.antt =====
-- src/single_interpreters and the loop of src/main.cpp: one handler for each instruction.
pub mod Runtime
pub mod Stack
pub mod Memory
pub mod Control
pub mod Values
pub mod Closures
pub mod Binop
pub mod Loop
pub mod Moves
pub mod Progress
pub mod Depth
pub mod Flow
