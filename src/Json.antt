-- ===== src/Json.antt =====
-- c/util/json.h: the JSON parser.
pub mod Strings
pub mod Quoted
pub mod Values
pub mod Access
pub mod Counts
pub mod Ends
mod Tests
