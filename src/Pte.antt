-- ===== src/Pte.antt =====
-- What the programs test1 to test9 stand on: the machine with the PTE metadata system calls
-- (parameters), processes that run on it, and the contract that README.md documents.
pub mod Machine
pub mod Process
pub mod Contract
