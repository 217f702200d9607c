-- ===== src/Decode/Safety.antt =====
-- What `read_ptr` of lib/capn.c promises of a pointer that it returns.
pub mod Bounds
pub mod Segments
pub mod Budget
pub mod Objects
pub mod Results
pub mod Walks
pub mod Members
pub mod Stale
