-- ===== src/Lib.antt =====
-- ziti-ssh: SSH over an OpenZiti network. A certificate authority signs short-lived user
-- certificates (cmd/ziti-ssh-ca, ca, internal/ratelimit); a daemon on the host proxies connections
-- to sshd, makes Linux users for their callers and keeps sshd's trusted keys (cmd/ziti-ssh-host,
-- host); and two clients ask for certificates, connect and copy (cmd/ziti-ssh, cmd/ziti-scp,
-- client). They share settings and atomic file writes (config).
--
-- How the parts interact: the daemon enrols, and then keeps the keys that the controllers present in
-- the file that sshd trusts. A client dials the authority, whose handleConn names the caller, asks the
-- rate limiter and signs. Then the client dials the host, whose proxyConn names the caller in the
-- same way and calls OnConnect, which resolves the caller's permissions and calls EnsureUser with
-- the user name that DeriveUsername gives; OnDisconnect calls ReleaseUser.
--
-- Files:
--   Prelude, Text, Dict, Disk  shared: Boolean tests, lists, results; Go's strings as lists of runes
--       of valid UTF-8; maps as association lists in the order of a range; the file system as a map,
--       and runs with all disks that they pass through
--   Ca/Username, Ca/Cert       ca/ca.go: DeriveUsername, SignCert
--   Ca/Conn                    cmd/ziti-ssh-ca/main.go: callerIdentity, handleConn
--   Ca/Server                  cmd/ziti-ssh-ca/main.go: the flags of main in Ca/Server/Settings, and run with
--       its accept loop
--   Ca/Config                  cmd/ziti-ssh-ca/config.go: validateControllerFlags, resolveControllerHost,
--       buildMgmtClient, runConfigApply, runConfigRemove
--   RateLimit                  internal/ratelimit/ratelimit.go: New, Allow, evict;
--       RateLimit/Bounds has what a bucket of tokens promises
--   Host/Permissions           host/host.go: Resolve, patternSpecificity
--   Host/Sudoers               host/host.go: ValidateSudoersRule, createSudoers, removeSudoers
--   Host/StateFile             host/host.go: the text of the state file
--   Host/Machine               the commands and file calls that host/host.go makes
--   Host/Delete                host/host.go: userProcessesGone, deleteUser
--   Host/Users                 host/host.go: UserManager; Host/Users/Threads has its connections as
--       goroutines, a step for each phase, in any order; Host/Users/Spec has the promise, a list of
--       sessions, and Host/Users/Refinement relates the two
--   Host/Proxy, Host/Sshd      host/host.go: callerName, proxyConn, Proxy; WriteSSHConfig, ReloadSSHD
--   Config                     config: EnvOrFlag, AtomicWriteFile, PersistZtAPIs, RunWithTimeout; Config/UrlUpdates:
--       registerZtAPIsPersist of cmd/ziti-ssh/main.go
--   Trust                      cmd/ziti-ssh-host/main.go: sshPubKeySetsEqual, loadPermissionsConfig;
--       Trust/Cluster: collectClusterCAs, intCAFromController; Trust/Refresh: refreshTrustedCAs
--   Daemon                     cmd/ziti-ssh-host/main.go: resolveSshServices, parseGlobalGroups and the
--       checks of the flags in Daemon/Settings, listClusterControllerURLs in Daemon/Controllers,
--       runEnroll in Daemon/Enroll, printPermissionsTable in Daemon/Inspect; of runProxy, the
--       listeners, the services' configs with their events, the updates and polls of the
--       cluster's controllers, and the hooks
--   Client/CertFile            client/ssh.go: CertNeedsRefresh; cmd/ziti-ssh/main.go: certTimeRemaining
--   Client/Socks5              client/ssh.go: handleSocks5Conn
--   Client/SafeName            client/sftp.go: safeName, downloadDir, downloadFile
--   Client/Upload              client/sftp.go: uploadAll, uploadDir, uploadFile, downloadAll
--   Client/FileCopy            client/sftp.go: uploadFile, downloadFile
--   Client/Progress            client/sftp.go: formatBytes, formatDuration, the progress writer
--   Client/Signer              client/ssh.go: NewCertSigner, newSignerFromAgent, wrapWithCert
--   Client/Session             client/ssh.go: RunSession, ForwardAgent, RunCommand, NewSSHClient, with
--       runSSHClientSession and runSSHClientCommand of cmd/ziti-ssh/main.go
--   Client/Tunnels             client/ssh.go: RunLocalForward, RunRemoteForward, RunDynamicProxy, biCopy
--   Cli                        cmd/ziti-ssh/main.go: the forward specifications and parseTarget,
--       resolveKey in Cli/Keys, runSign in Cli/Sign, runConnect and runProxy in Cli/Connect;
--       main of both clients in Cli/Commands, runEnroll in Cli/Enroll, the MFA commands in Cli/Mfa;
--       cmd/ziti-scp/main.go: parseArg, and runSCP in Cli/Copy
--   Oidc                       internal/oidc/oidc.go: AddCredentials, runFlow
--   Tests                      the theorems at concrete inputs
--
-- Names are the source's in snake case. State is a record that goes in and comes out; an error is a
-- constructor; what a system call, a command, the clock or another package answers is an input or a
-- field of a record (Calls, System, Ssh, Bucket, Json, Network), with documented behaviour as hypotheses.
-- A time is a count of nanoseconds, or of milliseconds for the polling loop; a certificate's times
-- are reduced modulo 2 ^ 64. Fuel: the polling loop has the number of turns that the time-out allows,
-- which is shown to be enough; the reader of a code has one turn for each line, and a number of
-- bytes is enough; the loop over the units of a size has eight turns, more than an int64 takes.
--
-- The handlers of the authority's connections share the limiter alone, which each uses at most once
-- and under its lock; so the model has them in the order of those uses. The phases of the user
-- manager are atomic steps: the source runs one under the manager's lock and the other under the
-- user's lock. A pass over the controllers takes them as they answer at one time. The limiter's map
-- and the token bucket read the clock one after the other, and get one time in the model.
--
-- Not modelled: the ssh, Ziti, OIDC and cobra packages, path.Match, unicode.ToLower and the
-- commands that are run, which are parameters or absent; log lines, but for what a refresh logs; and
-- what only calls those packages: the parsing of flags and YAML, the list of services,
-- the signal handlers and the drains. The speed of a transfer is a float64, and is left out.
pub mod Ca
pub mod Cli
pub mod Client
pub mod Config
pub mod Daemon
pub mod Dict
pub mod Disk
pub mod Host
pub mod Oidc
pub mod Prelude
pub mod RateLimit
pub mod Tests
pub mod Text
pub mod Trust
