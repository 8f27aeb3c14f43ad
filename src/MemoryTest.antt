-- ===== src/MemoryTest.antt =====
-- test10/sysbench/src/tests/memory/sb_memory.c: the memory benchmark with its PTE metadata calls,
-- as it is built without HAVE_LARGE_PAGES and with SIZEOF_SIZE_T equal to 8.
mod Examples
pub mod Config
pub mod Init
pub mod Powers
pub mod Total
pub mod Events
