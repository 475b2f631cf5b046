-- ===== src/Daemon.antt =====
-- cmd/ziti-ssh-host/main.go: the daemon's settings, its enrolment, its listeners and its events.
pub mod Settings
pub mod Controllers
pub mod Listeners
pub mod Events
pub mod Hooks
pub mod Enroll
pub mod Inspect
pub mod Poll
