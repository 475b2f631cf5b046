-- ===== src/Cli/Forwards.antt =====
-- parseLocalForward, parseRemoteForward and parseDynamicForward of cmd/ziti-ssh/main.go.
use ziti_ssh.Prelude.{
  ◌≡◌, ◌⊎◌, inl, inr, refl, sym, ap, ◌∙◌, List, [], ◌∷◌, Option, none, some, arith, All,
}
use ziti_ssh.Text.{Text, codes, Lacks}
use ziti_ssh.Text.Split.{split, join, split-join, join-split}

pub record LocalForwardSpec : Type 0 where
  pub bind : Text
  pub local_port : Text
  pub remote_host : Text
  pub remote_port : Text

pub record RemoteForwardSpec : Type 0 where
  pub bind : Text
  pub remote_port : Text
  pub local_host : Text
  pub local_port : Text

pub record DynamicForwardSpec : Type 0 where
  pub bind : Text
  pub local_port : Text

abbrev pub loopback : Text
loopback = codes "127.0.0.1"

-- the switch on the number of parts
unfoldable pub local_parts : List Text → Option LocalForwardSpec
local_parts (a ∷ b ∷ c ∷ []) =
    some (record { bind = loopback; local_port = a; remote_host = b; remote_port = c })
local_parts (a ∷ b ∷ c ∷ d ∷ []) =
    some (record { bind = a; local_port = b; remote_host = c; remote_port = d })
local_parts _ = none

unfoldable pub remote_parts : List Text → Option RemoteForwardSpec
remote_parts (a ∷ b ∷ c ∷ []) =
    some (record { bind = []; remote_port = a; local_host = b; local_port = c })
remote_parts (a ∷ b ∷ c ∷ d ∷ []) =
    some (record { bind = a; remote_port = b; local_host = c; local_port = d })
remote_parts _ = none

unfoldable pub dynamic_parts : List Text → Option DynamicForwardSpec
dynamic_parts (a ∷ []) = some (record { bind = loopback; local_port = a })
dynamic_parts (a ∷ b ∷ []) = some (record { bind = a; local_port = b })
dynamic_parts _ = none

unfoldable pub parse_local_forward : Text → Option LocalForwardSpec
parse_local_forward s = local_parts (split b':' s)

unfoldable pub parse_remote_forward : Text → Option RemoteForwardSpec
parse_remote_forward s = remote_parts (split b':' s)

unfoldable pub parse_dynamic_forward : Text → Option DynamicForwardSpec
parse_dynamic_forward s = dynamic_parts (split b':' s)

-- The form of a specification that names its address.
abbrev pub print_local : LocalForwardSpec → Text
print_local f = join (codes ":") (f.bind ∷ f.local_port ∷ f.remote_host ∷ f.remote_port ∷ [])

abbrev pub print_local_short : LocalForwardSpec → Text
print_local_short f = join (codes ":") (f.local_port ∷ f.remote_host ∷ f.remote_port ∷ [])

abbrev pub print_remote : RemoteForwardSpec → Text
print_remote f = join (codes ":") (f.bind ∷ f.remote_port ∷ f.local_host ∷ f.local_port ∷ [])

-- No part of the specification has a colon.
abbrev NoColon : LocalForwardSpec → Type 0
NoColon f = All (Lacks b':') (f.bind ∷ f.local_port ∷ f.remote_host ∷ f.remote_port ∷ [])

-- A local specification without colons in its parts is read back from its four-part form; and if it
-- binds to the loopback address, from its three-part form too.
pub parse_local_forward-print_local :
    (f : LocalForwardSpec)
    → NoColon f
    → (parse_local_forward (print_local f) ≡ some f)
      × (f.bind ≡ loopback → parse_local_forward (print_local_short f) ≡ some f)
unfolding parse_local_forward local_parts
parse_local_forward-print_local f h = (
  rw (split-join b':' f.bind (f.local_port ∷ f.remote_host ∷ f.remote_port ∷ []) h) refl,
  (λ same.
      rw (split-join b':' f.local_port (f.remote_host ∷ f.remote_port ∷ []) h.1)
        (ground (arith, same))),
)

parts_fit_local :
    (parts : List Text) (f : LocalForwardSpec)
    → local_parts parts ≡ some f
    → (parts ≡ f.bind ∷ f.local_port ∷ f.remote_host ∷ f.remote_port ∷ [])
      ⊎ ((f.bind ≡ loopback) × (parts ≡ f.local_port ∷ f.remote_host ∷ f.remote_port ∷ []))
unfolding local_parts
parts_fit_local (a ∷ b ∷ c ∷ []) f h = inr (ground (arith, h))
parts_fit_local (a ∷ b ∷ c ∷ d ∷ []) f h = inl (ground (arith, h))
parts_fit_local [] f h = cc
parts_fit_local (a ∷ []) f h = cc
parts_fit_local (a ∷ b ∷ []) f h = cc
parts_fit_local (a ∷ b ∷ c ∷ d ∷ e ∷ ps) f h = cc

-- Whatever is accepted as a local specification is its four-part form, or its three-part form with
-- the loopback address.
pub parse_local_forward_inv :
    (s : Text) (f : LocalForwardSpec)
    → parse_local_forward s ≡ some f
    → (s ≡ print_local f) ⊎ ((f.bind ≡ loopback) × (s ≡ print_local_short f))
unfolding parse_local_forward local_parts
parse_local_forward_inv s f h = elim (parts_fit_local (split b':' s) f h) [
  | inl e ↦ inl (sym (join-split b':' s) ∙ ap (join (codes ":")) e)
  | inr e ↦ inr (e.0, sym (join-split b':' s) ∙ ap (join (codes ":")) e.1)
]

abbrev pub print_remote_short : RemoteForwardSpec → Text
print_remote_short f = join (codes ":") (f.remote_port ∷ f.local_host ∷ f.local_port ∷ [])

parts_fit_remote :
    (parts : List Text) (f : RemoteForwardSpec)
    → remote_parts parts ≡ some f
    → (parts ≡ f.bind ∷ f.remote_port ∷ f.local_host ∷ f.local_port ∷ [])
      ⊎ ((f.bind ≡ []) × (parts ≡ f.remote_port ∷ f.local_host ∷ f.local_port ∷ []))
unfolding remote_parts
parts_fit_remote (a ∷ b ∷ c ∷ []) f h = inr (ground (arith, h))
parts_fit_remote (a ∷ b ∷ c ∷ d ∷ []) f h = inl (ground (arith, h))
parts_fit_remote [] f h = cc
parts_fit_remote (a ∷ []) f h = cc
parts_fit_remote (a ∷ b ∷ []) f h = cc
parts_fit_remote (a ∷ b ∷ c ∷ d ∷ e ∷ ps) f h = cc

-- Whatever is accepted as a remote specification is its four-part form, or its three-part form with
-- an empty address.
pub parse_remote_forward_inv :
    (s : Text) (f : RemoteForwardSpec)
    → parse_remote_forward s ≡ some f
    → (s ≡ print_remote f) ⊎ ((f.bind ≡ []) × (s ≡ print_remote_short f))
unfolding parse_remote_forward
parse_remote_forward_inv s f h = elim (parts_fit_remote (split b':' s) f h) [
  | inl e ↦ inl (sym (join-split b':' s) ∙ ap (join (codes ":")) e)
  | inr e ↦ inr (e.0, sym (join-split b':' s) ∙ ap (join (codes ":")) e.1)
]
