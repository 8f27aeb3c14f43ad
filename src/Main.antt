-- ===== src/Main.antt =====
-- test10/sysbench/src/sysbench.c: the command line, the initialisation and the main function.
mod Examples
pub mod CommandLine
pub mod GeneralArgs
pub mod Dispatch
pub mod Init
