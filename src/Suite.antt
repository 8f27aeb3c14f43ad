-- ===== src/Suite.antt =====
-- The programs test1/test1.c to test9/test9.c, each as a process on a machine that is a parameter.
-- `main` returns the exit status; what is left out is the time-keeping and the messages.
pub mod Basic
pub mod Direct
pub mod Structured
pub mod Errors
pub mod Pages
pub mod Update
pub mod Repeat
pub mod Passing
pub mod Detection
pub mod Reference
mod Examples
