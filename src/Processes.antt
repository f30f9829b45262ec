-- ===== src/Processes.antt =====
-- 03_processes_src: programs of `fork`, `exec` and `wait`.
pub mod ForkWait
mod Tests
