-- ===== src/Browse.antt =====
-- internal/v3/grpc/tools/browse_folder.go.
pub mod Prefix
pub mod Paths
pub mod Handler
mod Tests
