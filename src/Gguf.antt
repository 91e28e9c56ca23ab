-- ===== src/Gguf.antt =====
-- c/io/gguf.h: the metadata of a GGUF file.
pub mod Cursor
pub mod Within
pub mod Values
mod Tests
