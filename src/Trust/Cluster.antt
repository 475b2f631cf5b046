-- ===== src/Trust/Cluster.antt =====
-- controllersFromToken, parseControllerURL, intCAFromController, collectClusterCAs and
-- clusterCAsToBytes of cmd/ziti-ssh-host/main.go. TLS, X.509 and the ssh package are not code of
-- this repository: a `Network` gives what the code asks of them.
pub mod Gather
pub mod Collected
pub mod Bytes
use ziti_ssh.Prelude.{
  ◌≡◌, ◌⊎◌, inl, inr, refl, Bool, true, false, not, ◌&&◌, List, [], ◌∷◌, ◌++◌, if◌then◌else◌,
  Option, none, some, Result, ok, err, map, any, drop, length,
}
use ziti_ssh.Text.{Text, codes, text_eq, is_empty, has_prefix}

-- What the code reads of a certificate.
pub record X509 (Key : Type 0) : Type 0 where
  pub is_ca : Bool
  pub raw_subject : Text
  pub raw_issuer : Text
  pub public_key : Key

-- What url.Parse gives: u.Host, u.Hostname() and u.Port().
pub record Url : Type 0 where
  pub host : Text
  pub hostname : Text
  pub port : Text

-- tls.Config
pub record TlsConfig (Pool : Type 0) : Type 0 where
  pub server_name : Text
  pub root_cas : Option Pool
  pub insecure_skip_verify : Bool

-- The network, as one pass over the controllers finds it. `dial` gives the presented chain.
pub record Network : Type 1 where
  pub Key : Type 0
  pub Pool : Type 0
  pub parse_url : Text → Option Url
  pub dial : Text → TlsConfig Pool → Option (List (X509 Key))
  pub marshal_pkix : Key → Option Text
  pub authorized_key : Key → Option Text

pub data CaError : Type 0 where
  bad_url dial_error no_certificates no_intermediate no_keys : CaError

-- ziti.EnrollmentClaims
pub record EnrollmentClaims : Type 0 where
  pub controllers : List Text
  pub issuer : Text

-- strings.Contains
unfoldable pub contains : Text → Text → Bool
contains [] p = has_prefix [] p
contains (c ∷ s) p = let rest = contains s p in if has_prefix (c ∷ s) p then true else rest

unfoldable pub trim_prefix : Text → Text → Text
trim_prefix s p = if has_prefix s p then drop (length p) s else s

unfoldable pub parse_controller_url : Text → Text
unfolding contains trim_prefix has_prefix
parse_controller_url ctrl =
    if has_prefix ctrl (codes "tls:")
    then codes "https://" ++ trim_prefix ctrl (codes "tls:")
    else if not (contains ctrl (codes "://"))
    then codes "https://" ++ ctrl
    else ctrl

unfoldable pub controllers_from_token : EnrollmentClaims → List Text
controllers_from_token token = elim token.controllers [
  | c ∷ cs ↦ map parse_controller_url (c ∷ cs)
  | [] ↦ if is_empty token.issuer then [] else token.issuer ∷ []
]

-- the pair of a controller and its line
pub record ClusterCa : Type 0 where
  pub controller_url : Text
  pub authorized_key : Text

-- the first certificate that passes the test
unfoldable pub find_cert : {K : Type 0} → (X509 K → Bool) → List (X509 K) → Option (X509 K)
find_cert p [] = none
find_cert p (c ∷ cs) = let rest = find_cert p cs in if p c then some c else rest

-- the first of the chain that is the leaf's issuer, or else the first CA that is no root
unfoldable pub signs : {K : Type 0} → X509 K → X509 K → Bool
signs leaf c = c.is_ca && text_eq c.raw_subject leaf.raw_issuer

unfoldable pub is_intermediate : {K : Type 0} → X509 K → Bool
is_intermediate c = c.is_ca && not (text_eq c.raw_subject c.raw_issuer)

unfoldable pub int_ca_from_chain : {K : Type 0} → List (X509 K) → Result CaError (X509 K)
int_ca_from_chain [] = err no_certificates
int_ca_from_chain (leaf ∷ chain) = elim (find_cert (signs leaf) chain) [
  | some c ↦ ok c
  | none ↦ elim (find_cert is_intermediate (leaf ∷ chain)) [
    | some c ↦ ok c
    | none ↦ err no_intermediate
  ]
]

module _ (N : Network) where
  open N use {Key, Pool}

  unfoldable tls_config : Option Pool → Url → TlsConfig Pool
  tls_config none u = record {
    server_name = u.hostname;
    root_cas = none;
    insecure_skip_verify = true;
  }
  tls_config (some pool) u = record {
    server_name = u.hostname;
    root_cas = some pool;
    insecure_skip_verify = false;
  }

  unfoldable dial_host : Url → Text
  dial_host u = if is_empty u.port then u.host ++ codes ":443" else u.host

  unfoldable pub int_ca_from_controller : Option Pool → Text → Result CaError (X509 Key)
  unfolding tls_config dial_host
  int_ca_from_controller root_pool controller_url = elim (N.parse_url controller_url) [
    | none ↦ err bad_url
    | some u ↦ elim (N.dial (dial_host u) (tls_config root_pool u)) [
      | none ↦ err dial_error
      | some chain ↦ int_ca_from_chain chain
    ]
  ]

  -- the loop, with the keys that were seen
  unfoldable pub collect : Option Pool → List Text → List Text → List ClusterCa
  collect root_pool seen [] = []
  collect root_pool seen (url ∷ urls) =
      let rest = collect root_pool seen urls in
      elim (int_ca_from_controller root_pool url) [
        | err e ↦ rest
        | ok cert ↦ elim (N.marshal_pkix cert.public_key) [
          | none ↦ rest
          | some key ↦
              let fresh = collect root_pool (key ∷ seen) urls in
              if any (text_eq key) seen then rest else elim (N.authorized_key cert.public_key) [
                | none ↦ fresh
                | some line ↦ record { controller_url = url; authorized_key = line } ∷ fresh
              ]
        ]
      ]

  unfoldable pub collect_cluster_cas : Option Pool → List Text → Result CaError (List ClusterCa)
  collect_cluster_cas root_pool urls =
      let out = collect root_pool [] urls in elim out [ [] ↦ err no_keys | c ∷ cs ↦ ok (c ∷ cs) ]

unfoldable pub lines_of : List ClusterCa → List Text
lines_of [] = []
lines_of (c ∷ cs) = c.authorized_key ∷ lines_of cs

unfoldable pub cluster_cas_to_bytes : List ClusterCa → Text
cluster_cas_to_bytes [] = []
cluster_cas_to_bytes (c ∷ cs) = c.authorized_key ++ cluster_cas_to_bytes cs
