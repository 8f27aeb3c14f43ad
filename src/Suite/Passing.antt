-- ===== src/Suite/Passing.antt =====
-- The runs of the programs on a machine that keeps the documented contract.
pub mod Direct
pub mod Structured
pub mod Errors
pub mod Pages
pub mod Update
pub mod Repeat
