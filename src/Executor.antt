-- ===== src/Executor.antt =====
-- executor/: the handlers that run on the machine, from path containment to background processes.
pub mod Paths
pub mod FileOps
pub mod Processes
pub mod Shell
pub mod Transfer
