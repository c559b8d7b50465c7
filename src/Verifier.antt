-- ===== src/Verifier.antt =====
-- src/verifier/Verifier.hpp: the static check of the bytecode before it is run.
pub mod Effect
pub mod Marks
pub mod Variables
pub mod Scan
