-- ===== src/Multithreading.antt =====
-- 10_multithreading: programs of POSIX threads over shared memory, as step functions that a
-- scheduler drives.
pub mod Errors
pub mod Main
pub mod Dining
pub mod Bank
pub mod Tickets
pub mod Race
pub mod Thread
