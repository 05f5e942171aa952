-- ===== src/Chunker.antt =====
-- internal/v3/chunker: prose.go and ast.go.
pub mod Text
pub mod Prose
pub mod Code
mod Tests
