-- ===== src/Tests.antt =====
-- The theorems at concrete inputs: a small file, a small program, and states of the machine.
pub mod Program
mod Integers
mod Adding
mod Calls
mod Files
pub mod Marks
mod Scans
mod Frames
pub mod Steps
mod Runs
mod Prints
mod Starts
mod Verifies
mod Mains
mod Sequences
