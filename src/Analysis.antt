-- ===== src/Analysis.antt =====
-- The package `analysis`: its result cache, its dependency graph and its metrics.
pub mod Graph
pub mod Cache
pub mod Files
pub mod Impact
pub mod Usage
pub mod Engine
