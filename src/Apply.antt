-- ===== src/Apply.antt =====
-- internal/web/apply.go: the pipeline that puts a config on a router with an armed auto-revert.
-- The children: the world and the monad of fallible steps (World), the files on disk (Disk), the
-- version rows of internal/store/configversions.go (Versions), the handlers (Handlers), and what is
-- proved of them.
pub mod World
pub mod Includes
pub mod Disk
pub mod Versions
pub mod Handlers
pub mod Requests
pub mod Dirs
pub mod Effects
pub mod Restore
pub mod Backup
pub mod Steps
pub mod Midway
pub mod Safety
pub mod Pending
pub mod Confirm
pub mod Owned
pub mod Lock
