-- ===== src/Schema.antt =====
-- c/util/schema_gbnf.h: a JSON schema compiled to a grammar.
mod Texts
pub mod Writer
pub mod Values
pub mod Literals
pub mod Supported
pub mod Parts
pub mod Decides
pub mod Doubling
mod Tests
