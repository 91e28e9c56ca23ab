-- ===== src/Shards.antt =====
-- c/io/st.h: the tensors of a model's files, by name.
pub mod Tensor
pub mod Index
pub mod Find
pub mod Canon
pub mod File
pub mod Placed
pub mod Counts
pub mod Opened
mod Tests
