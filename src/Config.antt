-- ===== src/Config.antt =====
-- Settings and the files that hold them: package config.
pub mod Timeout
pub mod Resolve
pub mod AtomicWrite
pub mod ZtApis
pub mod UrlUpdates
