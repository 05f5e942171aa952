-- ===== src/State.antt =====
-- internal/lifecycle/controller.go and internal/state/store.go.
pub mod Lifecycle
pub mod Table
pub mod Store
pub mod Updates
pub mod Upserts
pub mod History
mod Tests
