-- ===== src/Render.antt =====
-- internal/renderutil: what the renderers compute before they print.
pub mod Hunks
pub mod Cursor
