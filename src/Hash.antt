-- ===== src/Hash.antt =====
-- Open addressing, as c/tok/tok.h and c/io/st.h have it.
pub mod Mask
pub mod Probe
pub mod Walk
pub mod Ends
pub mod Represents
pub mod Insert
pub mod Overwrite
pub mod Fnv
pub mod Capacity
pub mod Empty
