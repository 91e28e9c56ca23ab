-- ===== src/Tok.antt =====
-- c/tok/tok.h and tok_unicode.h: the tokenizer, from a text to token ids and back.
pub mod Utf8
pub mod ByteMap
pub mod Table
pub mod Bpe
pub mod Pretok
pub mod Encode
pub mod Decode
pub mod Pieces
pub mod Segments
pub mod Merges
pub mod Spelling
pub mod RoundTrip
pub mod Inverse
mod Tests
pub mod HashMap
pub mod HashMapLaws
mod MapTests
