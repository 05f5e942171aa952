-- ===== src/Tokenizer.antt =====
-- internal/v3/embed/berttok/berttok.go.
pub mod Runes
pub mod Pieces
pub mod Words
pub mod Added
pub mod Encode
mod Tests
