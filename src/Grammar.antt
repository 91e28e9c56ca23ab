-- ===== src/Grammar.antt =====
-- c/util/grammar.h: the GBNF grammar and the byte-level walker that proposes forced drafts.
pub mod Syntax
pub mod Language
pub mod Walker
pub mod Positions
pub mod Exact
pub mod Invariant
pub mod Safety
pub mod Residual
pub mod Accept
pub mod Draft
pub mod Admissible
pub mod Forced
pub mod Build
pub mod Lexer
pub mod Parser
pub mod Built
pub mod BuiltRules
pub mod LexerLaws
pub mod ItemLaws
pub mod ParserLaws
pub mod Parse
mod ParserTests
mod Tests
