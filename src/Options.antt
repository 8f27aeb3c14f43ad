-- ===== src/Options.antt =====
-- test10/sysbench/src/sb_options.c: the list of the program's options, which is filled from tables
-- of defaults, from the command line and from configuration files. A string is the list of its
-- bytes, without the byte 0 that ends it. An allocation is taken to succeed.
mod Examples
pub mod Names
pub mod Set
pub mod Size
pub mod Get
pub mod Outcome
pub mod Config
pub mod Store
