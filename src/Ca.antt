-- ===== src/Ca.antt =====
-- The certificate authority: package ca and the request handler of cmd/ziti-ssh-ca.
pub mod Username
pub mod Cert
pub mod Conn
pub mod Config
pub mod Server
