-- ===== src/Tests/Clusters.antt =====
-- A refresh of the trusted keys over three controllers, two of which have one key.
use ziti_ssh.Prelude.{
  ◌≡◌, ◌++◌, inl, refl, sym, Bool, true, false, List, [], ◌∷◌, if◌then◌else◌, none, some, ok, any,
  arith, Option,
}
use ziti_ssh.Text.{Text, codes, text_dec, has_prefix}
use ziti_ssh.Text.Split.{split}
use ziti_ssh.Text.Trim.{trim_space, trim_left, trim_right, is_space}
use ziti_ssh.Dict.{lookup}
use ziti_ssh.Host.Sshd.{reload_sshd}
use ziti_ssh.Trust.Keys.{non_empty_lines, trimmed_lines, ssh_pub_key_sets_equal}
use ziti_ssh.Trust.Keys.Sorting.{occurrences}
use ziti_ssh.Trust.Cluster.{
  collect_cluster_cas, collect, int_ca_from_controller, int_ca_from_chain, find_cert, signs,
  is_intermediate, cluster_cas_to_bytes, Network, Url, X509, TlsConfig,
}
use ziti_ssh.Trust.Cluster.Bytes.{IsLine}
use ziti_ssh.Trust.Cluster.Collected.{IsNetwork, offers}
use ziti_ssh.Trust.Refresh.{
  read_current, refresh_with, replace_keys, write_keys, reload_result, RefreshCalls, Refreshed,
  refresh_trusted_cas, unchanged,
}
use ziti_ssh.Trust.Refresh.Laws.{
  FreshKeyTemp, key_text, refresh_trusted_cas_done, refresh_trusted_cas_again,
}
use ziti_ssh.Tests.Samples.{good_calls}

-- Keys are Booleans; a host's key is true if its name starts with an a.
unfoldable pub key_bytes : Bool → Option Text
key_bytes b = some (if b then codes "t" else codes "f")

unfoldable pub key_line : Bool → Option Text
key_line b = some (if b then codes "t\n" else codes "f\n")

abbrev leaf : X509 Bool
leaf = record { is_ca = false; raw_subject = codes "h"; raw_issuer = codes "i"; public_key = false }

unfoldable pub issuer_of : Text → X509 Bool
issuer_of host = record {
  is_ca = true;
  raw_subject = codes "i";
  raw_issuer = codes "r";
  public_key = has_prefix host (codes "a");
}

unfoldable pub chain_of : Text → TlsConfig (Unit {0}) → Option (List (X509 Bool))
chain_of host config = some (leaf ∷ issuer_of host ∷ [])

unfoldable pub plain_url : Text → Option Url
plain_url s = some (record { host = s; hostname = s; port = codes "443" })

abbrev pub small_network : Network
small_network = record {
  Key = Bool;
  Pool = Unit {0};
  parse_url = plain_url;
  dial = chain_of;
  marshal_pkix = key_bytes;
  authorized_key = key_line;
}

key_bytes_inj : (k j : Bool) (b : Text) → key_bytes k ≡ some b → key_bytes j ≡ some b → k ≡ j
unfolding key_bytes
key_bytes_inj true true b h g = refl
key_bytes_inj false false b h g = refl
key_bytes_inj true false b h g = ground (arith, h, g)
key_bytes_inj false true b h g = ground (arith, h, g)

key_line_inj : (k j : Bool) (l : Text) → key_line k ≡ some l → key_line j ≡ some l → k ≡ j
unfolding key_line
key_line_inj true true l h g = refl
key_line_inj false false l h g = refl
key_line_inj true false l h g = ground (arith, h, g)
key_line_inj false true l h g = ground (arith, h, g)

some_same : (a b : Text) → some a ≡ some b → a ≡ b
some_same a b h = ground (arith, h)

key_line-IsLine : (k : Bool) (l : Text) → key_line k ≡ some l → IsLine l
unfolding key_line trim_space trim_left trim_right is_space
key_line-IsLine true l h =
    (codes "t", (sym (some_same (codes "t\n") l h), (ground arith, tt), refl, refl))
key_line-IsLine false l h =
    (codes "f", (sym (some_same (codes "f\n") l h), (ground arith, tt), refl, refl))

pub small_network-IsNetwork : IsNetwork small_network
small_network-IsNetwork = record {
  marshal_pkix_inj = key_bytes_inj;
  authorized_key_inj = key_line_inj;
  authorized_key_line = key_line-IsLine;
}

abbrev pub yes_commands : RefreshCalls
yes_commands = record { read_ok = true; write_calls = good_calls; answers = λ c. true }

abbrev path : Text
path = codes "ca.pub"

abbrev urls : List Text
urls = codes "b1" ∷ codes "a2" ∷ []

abbrev refreshed : Refreshed
refreshed = refresh_trusted_cas small_network yes_commands path none (codes "a1" ∷ urls) []

temp_free : FreshKeyTemp yes_commands path []
unfolding lookup
temp_free tmp e = (ground (arith, e), refl)

refreshed_ok : refreshed.result ≡ ok tt
unfolding refresh_trusted_cas collect_cluster_cas collect int_ca_from_controller int_ca_from_chain
    find_cert signs is_intermediate read_current refresh_with replace_keys write_keys
    cluster_cas_to_bytes ssh_pub_key_sets_equal non_empty_lines trimmed_lines split trim_space
    trim_left trim_right is_space reload_sshd reload_result lookup text_dec has_prefix key_bytes
    key_line issuer_of chain_of plain_url
refreshed_ok = refl

refresh_trusted_cas_done_example :
    occurrences (codes "t") (non_empty_lines (key_text path refreshed.disk)) ≡ (
      if any (offers small_network none (codes "t" ++ b'\n' ∷ [])) (codes "a1" ∷ urls)
      then 1
      else 0)
refresh_trusted_cas_done_example =
    refresh_trusted_cas_done small_network small_network-IsNetwork yes_commands path none
      (codes "a1") urls [] temp_free (inl refreshed_ok) (codes "t")

refresh_trusted_cas_again_example :
    refresh_trusted_cas small_network yes_commands path none (codes "a1" ∷ urls) refreshed.disk
    ≡ unchanged (ok tt) refreshed.disk
refresh_trusted_cas_again_example =
    refresh_trusted_cas_again small_network yes_commands yes_commands path none (codes "a1") urls []
      temp_free refl (inl refreshed_ok)
