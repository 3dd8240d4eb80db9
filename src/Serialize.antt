-- ===== src/Serialize.antt =====
-- internal/serialize: the grid that puts the lines of both texts side by side.
pub mod Listing
pub mod Gotoh
pub mod Grid
pub mod Anchors
pub mod Moves
pub mod Tiers
mod Examples
pub mod Similarity
