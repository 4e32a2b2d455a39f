-- ===== src/KvStore.antt =====
-- The key-value store of user-guide/linkkit/Vendors/ubuntu/wrapper.c (Vendors/Jabsco/wrapper.c has
-- the same code): a hash table of 384 rows of two items, kept in a file.
pub mod Row
pub mod File
pub mod Handle
pub mod Rows
pub mod Removal
pub mod Files
pub mod RoundTrip
pub mod Session
pub mod Whole
pub mod Contents
pub mod Served
pub mod Mapping
pub mod Threads
pub mod Idle
pub mod SetGet
mod Tests
