-- ===== src/Streamdiff.antt =====
-- internal/streamdiff: the stream of a patch.
pub mod Paths
