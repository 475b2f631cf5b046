-- ===== src/Trust.antt =====
-- The trust and permission settings that ziti-ssh-host takes from its network.
pub mod Keys
pub mod Loader
pub mod Cluster
pub mod Refresh
