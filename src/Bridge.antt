-- ===== src/Bridge.antt =====
-- The bridge's start-up: bridge/warmup.go and bridge/auto_connect.go.
pub mod Warmup
