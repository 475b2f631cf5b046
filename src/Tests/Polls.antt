-- ===== src/Tests/Polls.antt =====
-- An update of two controllers, a tick, and a poll whose list fails.
use ziti_ssh.Prelude.{
  ◌≡◌, ◌≢◌, subst, ◌++◌, inl, refl, true, List, [], ◌∷◌, if◌then◌else◌, none, some, ok, any, arith,
}
use ziti_ssh.Text.{Text, codes, text_dec, has_prefix}
use ziti_ssh.Text.Split.{split}
use ziti_ssh.Text.Trim.{trim_space, trim_left, trim_right, is_space}
use ziti_ssh.Dict.{lookup, insert, remove}
use ziti_ssh.Disk.{rename}
use ziti_ssh.Host.Sshd.{reload_sshd}
use ziti_ssh.Config.AtomicWrite.{atomic_write_file}
use ziti_ssh.Config.ZtApis.{Json, persist_zt_apis, rewrite, kept_mode}
use ziti_ssh.Trust.Keys.{
  non_empty_lines, trimmed_lines, ssh_pub_key_sets_equal, same_lines, sort_strings, reverse_onto,
  sort_onto, sink, text_lt,
}
use ziti_ssh.Trust.Keys.Sorting.{occurrences}
use ziti_ssh.Trust.Cluster.{
  collect_cluster_cas, collect, int_ca_from_controller, int_ca_from_chain, find_cert, signs,
  is_intermediate, cluster_cas_to_bytes, Url,
}
use ziti_ssh.Trust.Cluster.Collected.{offers}
use ziti_ssh.Trust.Refresh.{
  read_current, refresh_with, replace_keys, write_keys, stage_keys, fill_keys, drop_tmp,
  reload_result, refresh_trusted_cas, unchanged,
}
use ziti_ssh.Trust.Refresh.Laws.{FreshKeyTemp, key_text}
use ziti_ssh.Daemon.Controllers.{list_cluster_controller_urls, controller_urls}
use ziti_ssh.Daemon.Poll.{
  Cluster, ClusterEvent, updated, ticked, latest, refresh_disk, controllers_updated, polled_urls,
  poll_urls, poll, cluster_step, after_cluster_events, poll_fallback,
}
use ziti_ssh.Tests.Samples.{good_calls}
use ziti_ssh.Tests.Clusters.{
  small_network, small_network-IsNetwork, yes_commands, key_bytes, key_line, issuer_of, chain_of,
  plain_url,
}

abbrev json : Json
json = record {
  Value = Text;
  value = λ t. t;
  parse = λ t. some [];
  print = λ m. some (codes "new");
  encode = λ us. codes "us";
}

abbrev url_of : Text → Url
url_of t = record { host = t; hostname = t; port = codes "443" }

abbrev others : List Url
others = url_of (codes "b1") ∷ []

abbrev events : List ClusterEvent
events =
    updated (url_of (codes "a1") ∷ others) good_calls true yes_commands
    ∷ ticked (some none) yes_commands
    ∷ []

abbrev start : Cluster
start = record {
  cached = [];
  disk = (codes "id", record { content = codes "old"; mode = 0o600 }) ∷ [];
}

abbrev cluster : Cluster
cluster =
    after_cluster_events small_network json (λ u. u.host) (codes "id") (codes "ca.pub") none events
      start

announced : latest start.cached events ≡ url_of (codes "a1") ∷ others
unfolding latest
announced = refl

no_temp : lookup (codes "t") cluster.disk ≡ none
unfolding after_cluster_events cluster_step controllers_updated poll poll_urls polled_urls
    refresh_disk list_cluster_controller_urls controller_urls persist_zt_apis rewrite kept_mode
    atomic_write_file refresh_trusted_cas collect_cluster_cas collect int_ca_from_controller
    int_ca_from_chain find_cert signs is_intermediate read_current refresh_with replace_keys
    write_keys stage_keys fill_keys drop_tmp cluster_cas_to_bytes ssh_pub_key_sets_equal
    non_empty_lines trimmed_lines split trim_space trim_left trim_right is_space reload_sshd
    reload_result unchanged lookup insert remove rename text_dec has_prefix key_bytes key_line
    issuer_of chain_of plain_url
no_temp = refl

some_same : (a b : Text) → some a ≡ some b → a ≡ b
some_same a b h = ground (arith, h)

temp_free : FreshKeyTemp yes_commands (codes "ca.pub") cluster.disk
temp_free tmp e =
    let same = some_same (codes "t") tmp e in
    (
      subst (λ t. t ≢ codes "ca.pub") same (λ h. ground (arith, h)),
      subst (λ t. lookup t cluster.disk ≡ none) same no_temp,
    )

refreshed_ok :
    (refresh_trusted_cas small_network yes_commands
      (codes "ca.pub")
      none
      (codes "a1" ∷ codes "b1" ∷ [])
      cluster.disk).result
    ≡ ok tt
unfolding after_cluster_events cluster_step controllers_updated poll poll_urls polled_urls
    refresh_disk list_cluster_controller_urls controller_urls persist_zt_apis rewrite kept_mode
    atomic_write_file refresh_trusted_cas collect_cluster_cas collect int_ca_from_controller
    int_ca_from_chain find_cert signs is_intermediate read_current refresh_with replace_keys
    write_keys stage_keys fill_keys drop_tmp cluster_cas_to_bytes ssh_pub_key_sets_equal
    non_empty_lines trimmed_lines split trim_space trim_left trim_right is_space reload_sshd
    reload_result unchanged lookup insert remove rename text_dec has_prefix key_bytes key_line
    issuer_of chain_of plain_url same_lines sort_strings reverse_onto sort_onto sink text_lt
refreshed_ok = refl

poll_fallback_example :
    occurrences (codes "t") (
      non_empty_lines (
        key_text
          (codes "ca.pub")
          (poll small_network json
            (λ u. u.host)
            (codes "id")
            (codes "ca.pub")
            none
            none
            yes_commands
            cluster).disk))
    ≡ (if any (offers small_network none (codes "t" ++ b'\n' ∷ [])) (codes "a1" ∷ codes "b1" ∷ [])
        then 1
        else 0)
poll_fallback_example =
    poll_fallback small_network json (λ u. u.host) (codes "id") (codes "ca.pub") none
      small_network-IsNetwork events start yes_commands (url_of (codes "a1")) others announced
      temp_free (inl refreshed_ok) (codes "t")
