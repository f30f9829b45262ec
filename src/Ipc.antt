-- ===== src/Ipc.antt =====
-- The programs on processes that talk to each other: 06_ipc_src.
pub mod Children
pub mod CountPrimes
pub mod CountFiles
pub mod Kill
pub mod Signal
pub mod Center
mod Tests
