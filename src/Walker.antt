-- ===== src/Walker.antt =====
-- internal/v3/walker.
pub mod Classes
pub mod Walk
