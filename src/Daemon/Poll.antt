-- ===== src/Daemon/Poll.antt =====
-- What runProxy of cmd/ziti-ssh-host/main.go does about its cluster: the handler of a controller
-- update, and a turn of the poll. Each is one step here, in any order; errors are only logged.
use ziti_ssh.Prelude.{
  ◌≡◌, refl, ap, ◌∙◌, Bool, List, [], ◌∷◌, ◌++◌, if◌then◌else◌, Option, none, some, any, map,
}
use ziti_ssh.Text.{Text}
use ziti_ssh.Disk.{Disk}
use ziti_ssh.Config.AtomicWrite.{Calls}
use ziti_ssh.Config.ZtApis.{Json, persist_zt_apis}
use ziti_ssh.Trust.Keys.{non_empty_lines}
use ziti_ssh.Trust.Keys.Sorting.{occurrences}
use ziti_ssh.Trust.Cluster.{Network, Url}
use ziti_ssh.Trust.Cluster.Collected.{IsNetwork, offers}
use ziti_ssh.Trust.Refresh.{RefreshCalls, refresh_trusted_cas}
use ziti_ssh.Trust.Refresh.Laws.{FreshKeyTemp, IsWritten, key_text, refresh_trusted_cas_done}
use ziti_ssh.Daemon.Controllers.{Addresses, list_cluster_controller_urls}

-- cachedCtrlURLs, and the host's files
pub record Cluster : Type 0 where
  pub cached : List Url
  pub disk : Disk

-- An update of the controllers with what the calls of its handler answer, and a tick of the poll with
-- the list that the controller answers.
pub data ClusterEvent : Type 0 where
  updated : List Url → (identity_calls : Calls) → (stat_ok : Bool) → RefreshCalls → ClusterEvent
  ticked : Option (Option (List Addresses)) → RefreshCalls → ClusterEvent

-- the latest update's controllers
unfoldable pub latest : List Url → List ClusterEvent → List Url
latest cached [] = cached
latest cached (updated urls c stat_ok calls ∷ es) = latest urls es
latest cached (ticked answer calls ∷ es) = latest cached es

-- url.URL's String, the name of the identity file and of the key file, and the enrolment's pool
module _ (N : Network) (j : Json) (url_text : Url → Text) (identity_file key_path : Text)
    (root_pool : Option N.Pool) where
  unfoldable pub refresh_disk : RefreshCalls → List Url → Disk → Disk
  refresh_disk calls urls d =
      (refresh_trusted_cas N calls key_path root_pool (map url_text urls) d).disk

  unfoldable pub controllers_updated : List Url → Calls → Bool → RefreshCalls → Cluster → Cluster
  controllers_updated urls c stat_ok calls s =
      let persisted = persist_zt_apis j c stat_ok identity_file (map url_text urls) s.disk in
      record { cached = urls; disk = refresh_disk calls urls persisted.1 }

  -- the URLs of a turn: the cached ones if the list fails
  unfoldable pub polled_urls : Option (Option (List Addresses)) → List Url → List Url
  polled_urls answer cached = elim (list_cluster_controller_urls N.parse_url answer) [
    | none ↦ cached
    | some urls ↦ urls
  ]

  -- no URLs: the turn is skipped
  unfoldable pub poll_urls : RefreshCalls → Cluster → List Url → Cluster
  poll_urls calls s [] = s
  poll_urls calls s (url ∷ urls) = record {
    cached = s.cached;
    disk = refresh_disk calls (url ∷ urls) s.disk;
  }

  unfoldable pub poll : Option (Option (List Addresses)) → RefreshCalls → Cluster → Cluster
  poll answer calls s = poll_urls calls s (polled_urls answer s.cached)

  unfoldable pub cluster_step : ClusterEvent → Cluster → Cluster
  cluster_step (updated urls c stat_ok calls) s = controllers_updated urls c stat_ok calls s
  cluster_step (ticked answer calls) s = poll answer calls s

  unfoldable pub after_cluster_events : List ClusterEvent → Cluster → Cluster
  after_cluster_events [] s = s
  after_cluster_events (e ∷ es) s = after_cluster_events es (cluster_step e s)

  poll_urls-cached :
      (calls : RefreshCalls) (s : Cluster) (urls : List Url)
      → (poll_urls calls s urls).cached ≡ s.cached
  unfolding poll_urls
  poll_urls-cached calls s [] = refl
  poll_urls-cached calls s (url ∷ urls) = refl

  poll-cached :
      (answer : Option (Option (List Addresses))) (calls : RefreshCalls) (s : Cluster)
      → (poll answer calls s).cached ≡ s.cached
  unfolding poll
  poll-cached answer calls s = poll_urls-cached calls s (polled_urls answer s.cached)

  -- The cached URLs are those of the latest update.
  pub after_cluster_events-cached :
      (es : List ClusterEvent) (s : Cluster)
      → (after_cluster_events es s).cached ≡ latest s.cached es
  unfolding after_cluster_events latest cluster_step controllers_updated
  after_cluster_events-cached [] s = refl
  after_cluster_events-cached (updated urls c stat_ok calls ∷ es) s =
      after_cluster_events-cached es (controllers_updated urls c stat_ok calls s)
  after_cluster_events-cached (ticked answer calls ∷ es) s =
      after_cluster_events-cached es (poll answer calls s)
      ∙ ap (λ urls. latest urls es) (poll-cached answer calls s)

  fallback_disk :
      (calls : RefreshCalls) (s : Cluster) (url : Url) (urls : List Url)
      → s.cached ≡ url ∷ urls
      → (poll none calls s).disk ≡ refresh_disk calls (url ∷ urls) s.disk
  unfolding poll poll_urls polled_urls list_cluster_controller_urls
  fallback_disk calls s url urls e = ap (λ us. (poll_urls calls s us).disk) e

  -- Whatever updates and polls came before, a poll whose list fails refreshes the keys from the
  -- controllers of the latest update: if its refresh ends without an error, or with one of the reload
  -- only, the key file has the keys that they present, each once. The encodings of a key determine it
  -- and are single lines, the temporary name was free, and the latest update had a controller.
  pub poll_fallback :
      IsNetwork N
      → (es : List ClusterEvent) (s : Cluster) (calls : RefreshCalls) (url : Url) (urls : List Url)
      → latest s.cached es ≡ url ∷ urls
      → let s' = after_cluster_events es s in
        FreshKeyTemp calls key_path s'.disk
        → IsWritten
            (refresh_trusted_cas N calls key_path root_pool
              (map url_text (url ∷ urls))
              s'.disk).result
        → (z : Text)
        → occurrences z (non_empty_lines (key_text key_path (poll none calls s').disk)) ≡ (
            if any (offers N root_pool (z ++ b'\n' ∷ [])) (map url_text (url ∷ urls)) then 1 else 0)
  unfolding refresh_disk
  poll_fallback ins es s calls url urls last fresh h z =
      let s' = after_cluster_events es s in
      ap (λ d. occurrences z (non_empty_lines (key_text key_path d)))
        (fallback_disk calls s' url urls (after_cluster_events-cached es s ∙ last))
      ∙ refresh_trusted_cas_done N ins calls key_path root_pool (url_text url) (map url_text urls)
          s'.disk fresh h z
