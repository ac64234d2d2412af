-- ===== src/Utils.antt =====
-- The packages `utils` and `security`: paths.
pub mod Clean
pub mod Allowed
pub mod PathMap
