-- ===== src/Client.antt =====
-- The client's library: package client.
pub mod Socks5
pub mod CertFile
pub mod SafeName
pub mod Upload
pub mod Signer
pub mod Session
pub mod Tunnels
pub mod Progress
pub mod FileCopy
