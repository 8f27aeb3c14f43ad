-- ===== src/Rand.antt =====
-- test10/sysbench/src/sb_rand.c: the random numbers.
pub mod Residues
pub mod Modulus
pub mod Bits
pub mod Unique
pub mod Generate
pub mod Init
mod Examples
