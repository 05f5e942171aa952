-- ===== src/Pipeline.antt =====
-- internal/v3/pipeline: pipeline.go and runner.go.
pub mod Tables
pub mod Engine
pub mod Tx
pub mod Runner
pub mod Process
pub mod Fingerprint
pub mod Run
pub mod Compat
pub mod Sound
pub mod Memory
mod Tests
