-- ===== src/Api.antt =====
-- c/api: the public library over an engine's operations.
pub mod Types
pub mod Sampling
pub mod Draft
pub mod Decode
pub mod Generate
pub mod DraftBounds
pub mod Context
pub mod Generated
pub mod Rounds
pub mod Reference
pub mod Lookahead
pub mod Answer
pub mod Open
pub mod Opened
pub mod Live
mod OpenTests
mod Tests
