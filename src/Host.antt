-- ===== src/Host.antt =====
-- The host daemon's library: package host.
pub mod Permissions
pub mod Sudoers
pub mod StateFile
pub mod Machine
pub mod Delete
pub mod Users
pub mod Proxy
pub mod Sshd
