-- ===== src/Cli.antt =====
-- The command lines of ziti-ssh and ziti-scp.
pub mod Keys
pub mod Sign
pub mod Connect
pub mod Forwards
pub mod Target
pub mod Copy
pub mod Commands
pub mod Mfa
pub mod Enroll
