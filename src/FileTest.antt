-- ===== src/FileTest.antt =====
-- test10/sysbench/src/tests/fileio/sb_fileio.c: the file test. Each event is a request to read or to
-- write a part of a file, or to synchronise one.
mod Examples
pub mod Requests
pub mod Buffer
pub mod Execute
pub mod Create
pub mod Values
pub mod Arguments
