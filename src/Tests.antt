-- ===== src/Tests.antt =====
-- The theorems at concrete inputs.
mod Samples
mod HostUsers
mod HostFiles
mod HostPermissions
mod Authority
mod Configs
mod Clients
mod CommandLines
mod Trusts
mod HostSessions
mod Clusters
mod Daemons
mod Enrolments
mod Certificates
mod Connections
mod Controllers
mod Polls
mod Programs
mod Transfers
mod Servers
