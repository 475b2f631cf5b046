-- ===== src/Oidc.antt =====
-- internal/oidc/oidc.go: AddCredentials and runFlow, the login in a browser, and addOIDCCredentials of
-- cmd/ziti-ssh/oidc.go, which is AddCredentials. The OIDC library, the callback's server and the
-- browser are inputs: they say what arrives before the flow's time is over.
pub mod Laws
use ziti_ssh.Prelude.{
  Bool, not, List, [], ◌∷◌, ◌++◌, if◌then◌else◌, Option, none, some, Result, ok, err,
}
use ziti_ssh.Text.{Text, codes, is_empty}
use ziti_ssh.Text.Split.{split}

pub record FlowParams : Type 0 where
  pub issuer : Text
  pub client_id : Text
  pub client_secret : Text
  pub callback_port : Text

abbrev pub default_callback_port : Text
default_callback_port = codes "63275"

abbrev pub callback_path : Text
callback_path = codes "/auth/callback"

abbrev pub default_auth_scopes : Text
default_auth_scopes = codes "openid profile email"

pub data FlowError : Type 0 where
  no_issuer no_client_id no_relying_party timed_out : FlowError

-- What the relying party is made of.
pub record PartySettings : Type 0 where
  pub issuer : Text
  pub client_id : Text
  pub client_secret : Text
  pub redirect_url : Text
  pub scopes : List Text
  pub with_pkce : Bool

-- The select of the flow, in order: the callback has exchanged a code for an access token, or the
-- flow's time is over.
pub data FlowEvent : Type 0 where
  called_back : Text → FlowEvent
  time_over : FlowEvent

-- What a flow starts: its relying party, the address of the callback's server, and the page that the
-- browser opens; and its result, where `none` still waits.
pub record Flow : Type 0 where
  pub party : Option PartySettings
  pub address : Text
  pub page : Text
  pub result : Option (Result FlowError Text)

-- the callback's server; that it cannot listen is logged only, and no callback comes then
unfoldable pub heard : (listen_ok : Bool) → List FlowEvent → List FlowEvent
heard listen_ok [] = []
heard listen_ok (called_back token ∷ es) =
    let rest = heard listen_ok es in if listen_ok then called_back token ∷ rest else rest
heard listen_ok (time_over ∷ es) = time_over ∷ heard listen_ok es

-- the select
unfoldable pub await_token : List FlowEvent → Option (Result FlowError Text)
await_token [] = none
await_token (called_back token ∷ es) = some (ok token)
await_token (time_over ∷ es) = some (err timed_out)

abbrev not_started : FlowError → Flow
not_started e = record { party = none; address = []; page = []; result = some (err e) }

-- the relying party of a flow on a port
unfoldable pub party_settings : FlowParams → (port : Text) → PartySettings
party_settings p port = record {
  issuer = p.issuer;
  client_id = p.client_id;
  client_secret = p.client_secret;
  redirect_url = codes "http://localhost:" ++ (port ++ callback_path);
  scopes = split b' ' default_auth_scopes;
  with_pkce = is_empty p.client_secret;
}

unfoldable pub run_flow :
    (relying_party : PartySettings → Bool) (listen_ok : Bool) → FlowParams → List FlowEvent → Flow
run_flow relying_party listen_ok p es =
    let port = if is_empty p.callback_port then default_callback_port else p.callback_port in
    let settings = party_settings p port in
    if is_empty p.issuer
    then not_started no_issuer
    else if is_empty p.client_id
    then not_started no_client_id
    else if not (relying_party settings)
    then not_started no_relying_party
    else record {
      party = some settings;
      address = codes ":" ++ port;
      page = codes "http://localhost:" ++ (port ++ codes "/login");
      result = await_token (heard listen_ok es);
    }

-- AddCredentials: the result, and the tokens of the context's credentials; `none` still waits
unfoldable pub add_credentials :
    (relying_party : PartySettings → Bool) (listen_ok : Bool)
    → FlowParams
    → List FlowEvent
    → (credentials : List Text) → Option (Result FlowError (Unit {0}) × List Text)
add_credentials relying_party listen_ok p es credentials =
    if is_empty p.issuer
    then some (ok tt, credentials)
    else elim (run_flow relying_party listen_ok p es).result [
      | none ↦ none
      | some (err e) ↦ some (err e, credentials)
      | some (ok token) ↦ some (ok tt, credentials ++ token ∷ [])
    ]
