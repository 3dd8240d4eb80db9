-- ===== src/Engine.antt =====
-- internal/engine: node mappings, sequence alignment and line matching.
pub mod Mapping
pub mod SeqDiff
pub mod WordDiff
pub mod LineDiff
