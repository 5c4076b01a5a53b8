-- ===== src/Updater.antt =====
-- updater/: when an update may be applied, which release is newer, and one check from the release
-- lookup to the end of the process.
pub mod Gate
pub mod Version
pub mod Apply
pub mod Check
pub mod Lock
pub mod Watchdog
pub mod Swap
mod Tests
