-- ===== src/Daemon.antt =====
-- src/daemon.rs: parts of the daemon.
pub mod Frames
pub mod Fanout
pub mod Activity
pub mod Jitter
pub mod JobView
pub mod PollLoop
pub mod Exclusive
mod Tests
