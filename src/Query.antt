-- ===== src/Query.antt =====
-- internal/v3/grpc/query.
pub mod Match
pub mod Reader
pub mod Hydrate
pub mod Handlers
pub mod Statuses
pub mod Gate
mod Tests
pub mod Direct
pub mod Batch
