-- ===== src/Client.antt =====
-- client/: admission of commands, the hand-off goroutines and the reconnect loop.
pub mod Classify
pub mod Registry
pub mod Snapshot
pub mod Waiters
pub mod Reconnect
pub mod System
mod Tests
