-- ===== src/Search.antt =====
-- internal/v3/grpc/tools/search_broadly.go.
pub mod Fuse
pub mod Shape
pub mod Sources
pub mod Broadly
mod Tests
