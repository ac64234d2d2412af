-- ===== src/Tests.antt =====
-- Tests, and each property with hypotheses at a concrete input.
mod Wire
mod Calls
mod Watchers
mod Client
mod Store
mod Analyzer
mod Paths
mod Connection
mod Readiness
mod Threads
