-- ===== src/Analyzer/Ends.antt =====
-- Both traversals of the analyzer end.
pub mod Flags
pub mod Queue
pub mod Labels
