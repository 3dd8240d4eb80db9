-- ===== src/Engine/Mapping/Laws.antt =====
-- internal/engine/mapping.go: what `Pairs` lists, the invariant of the mapping, and what its
-- operations answer.
pub mod Pairs
pub mod Bijection
pub mod Adding
pub mod Removing
