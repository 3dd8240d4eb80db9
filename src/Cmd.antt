-- ===== src/Cmd.antt =====
-- cmd: the pool of workers that diffs many files.
pub mod Pool
