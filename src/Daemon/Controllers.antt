-- ===== src/Daemon/Controllers.antt =====
-- listClusterControllerURLs of cmd/ziti-ssh-host/main.go: which controllers a poll asks. The list is
-- the answer of the SDK's REST client.
use ziti_ssh.Prelude.{
  ◌≡◌, Bool, false, not, ◌&&◌, ◌||◌, List, [], ◌∷◌, ◌++◌, if◌then◌else◌, Option, none, some, any,
  map, arith, Option-cases, inl, inr, ◌+◌,
}
use ziti_ssh.Text.{Text, codes, text_eq}
use ziti_ssh.Trust.Keys.Sorting.{occurrences}
use ziti_ssh.Trust.Cluster.{Url}

pub record ApiAddress : Type 0 where
  pub version : Text
  pub url : Text

-- A controller's addresses for "edge-client", if it has any.
abbrev pub Addresses : Type 0
Addresses = Option (List ApiAddress)

abbrev pub hosts_of : List Url → List Text
hosts_of = map λ u. u.host

occurrences-hosts :
    (h : Text) (us vs : List Url)
    → occurrences h (hosts_of (us ++ vs))
      ≡ occurrences h (hosts_of us) + occurrences h (hosts_of vs)
unfolding occurrences
occurrences-hosts h [] vs = ground arith
occurrences-hosts h (u ∷ us) vs = ground (arith, occurrences-hosts h us vs)

some_same : (us vs : List Url) → some us ≡ some vs → us ≡ vs
some_same us vs e = ground (arith, e)

-- url.Parse
module _ (parse_url : Text → Option Url) where
  -- the URL of an address that counts
  unfoldable pub v1_url : ApiAddress → Option Url
  v1_url a = if text_eq a.version (codes "v1") then parse_url a.url else none

  -- the inner loop: the hosts that were seen, and the URLs that it appends
  unfoldable pub address_urls : List Text → List ApiAddress → List Text × List Url
  address_urls seen [] = (seen, [])
  address_urls seen (a ∷ rest) = elim (v1_url a) [
    | none ↦ address_urls seen rest
    | some u ↦
        let (skipped, others) = address_urls seen rest in
        let (later, more) = address_urls (u.host ∷ seen) rest in
        if any (text_eq u.host) seen then (skipped, others) else (later, u ∷ more)
  ]

  -- the outer loop
  unfoldable pub controller_urls : List Text → List Addresses → List Url
  controller_urls seen [] = []
  controller_urls seen (none ∷ rest) = controller_urls seen rest
  controller_urls seen (some addresses ∷ rest) =
      let (later, urls) = address_urls seen addresses in urls ++ controller_urls later rest

  -- `none` is an error of the call; the answer may be nil
  unfoldable pub list_cluster_controller_urls : Option (Option (List Addresses)) → Option (List Url)
  list_cluster_controller_urls none = none
  list_cluster_controller_urls (some none) = some []
  list_cluster_controller_urls (some (some list)) = some (controller_urls [] list)

  unfoldable pub is_host : Text → Option Url → Bool
  is_host h none = false
  is_host h (some u) = text_eq u.host h

  abbrev pub addresses_have : Text → List ApiAddress → Bool
  addresses_have h = any λ a. is_host h (v1_url a)

  -- Some address of version v1 has the host.
  abbrev pub has_host : Text → List Addresses → Bool
  has_host h [] = false
  has_host h (none ∷ rest) = has_host h rest
  has_host h (some addresses ∷ rest) = addresses_have h addresses || has_host h rest

  address_urls-seen :
      (h : Text) (seen : List Text) (addresses : List ApiAddress)
      → any (text_eq h) (address_urls seen addresses).0
        ≡ any (text_eq h) seen || addresses_have h addresses
  unfolding address_urls is_host
  address_urls-seen h seen [] = ground arith
  address_urls-seen h seen (a ∷ rest) = elim (Option-cases (v1_url a)) [
    | inl e ↦ ground (arith, e, address_urls-seen h seen rest)
    | inr (u, e) ↦
        ground (arith, e, address_urls-seen h seen rest, address_urls-seen h (u.host ∷ seen) rest)
  ]

  address_urls-hosts :
      (h : Text) (seen : List Text) (addresses : List ApiAddress)
      → occurrences h (hosts_of (address_urls seen addresses).1)
        ≡ (if addresses_have h addresses && not (any (text_eq h) seen) then 1 else 0)
  unfolding address_urls is_host occurrences
  address_urls-hosts h seen [] = ground arith
  address_urls-hosts h seen (a ∷ rest) = elim (Option-cases (v1_url a)) [
    | inl e ↦ ground (arith, e, address_urls-hosts h seen rest)
    | inr (u, e) ↦
        ground (arith, e, address_urls-hosts h seen rest, address_urls-hosts h (u.host ∷ seen) rest)
  ]

  controller_urls-hosts :
      (h : Text) (seen : List Text) (list : List Addresses)
      → occurrences h (hosts_of (controller_urls seen list))
        ≡ (if has_host h list && not (any (text_eq h) seen) then 1 else 0)
  unfolding controller_urls occurrences
  controller_urls-hosts h seen [] = ground arith
  controller_urls-hosts h seen (none ∷ rest) = controller_urls-hosts h seen rest
  controller_urls-hosts h seen (some addresses ∷ rest) =
      let (later, urls) = address_urls seen addresses in
      ground (
        arith,
        occurrences-hosts h urls (controller_urls later rest),
        address_urls-seen h seen addresses,
        address_urls-hosts h seen addresses,
        controller_urls-hosts h later rest,
      )

  -- A host is polled once if some controller has it in an edge-client address of version v1, and
  -- else not at all.
  pub list_cluster_controller_urls_once :
      (list : List Addresses) (urls : List Url) (h : Text)
      → list_cluster_controller_urls (some (some list)) ≡ some urls
      → occurrences h (hosts_of urls) ≡ (if has_host h list then 1 else 0)
  unfolding list_cluster_controller_urls
  list_cluster_controller_urls_once list urls h e =
      ground (arith, controller_urls-hosts h [] list, some_same (controller_urls [] list) urls e)
