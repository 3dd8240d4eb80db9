-- ===== src/Engine/WordDiff.antt =====
-- internal/engine/worddiff.go: what differs between two versions of one line, word by word.
pub mod Tokens
pub mod Diff
mod Tiling
mod Offset
pub mod Slots
mod Middle
pub mod Kept
mod Examples
