-- ===== src/Client/Socks5.antt =====
-- handleSocks5Conn of client/ssh.go: the SOCKS5 handshake of the dynamic proxy. The net package's
-- printing of an address and fmt's printing of a port are parameters.
pub mod Laws
use ziti_ssh.Prelude.{
  ℕ, zero, suc, ◌+◌, ◌-◌, ◌*◌, ◌≤◌, ◌≡◌, refl, Bool, true, false, not, ◌&&◌, ◌||◌, List, [], ◌∷◌,
  ◌++◌, ◌==◌, leb, ltb, if◌then◌else◌, Option, none, some, Result, ok, err,
}
use ziti_ssh.Text.{Text, codes}

-- io.ReadFull of n bytes: `none` if the input ends before that
pub read_full : ℕ → List ℕ → Option (List ℕ × List ℕ)
read_full zero s = some ([], s)
read_full (suc n) [] = none
read_full (suc n) (b ∷ s) = elim (read_full n s) [ none ↦ none | some r ↦ some (b ∷ r.0, r.1) ]

-- the byte at an index of a buffer of known length
pub byte : ℕ → List ℕ → ℕ
byte i [] = 0
byte zero (b ∷ s) = b
byte (suc i) (b ∷ s) = byte i s

-- How the handshake ends.
pub data Ending : Type 0 where
  cut_off bad_version write_failed bad_command bad_address refused : Ending
  tunnel : Text → List ℕ → Ending

-- What the handshake wrote, and how it ended; `tunnel` has the input that is passed on.
pub record Outcome : Type 0 where
  pub written : List (List ℕ)
  pub ending : Ending

-- What the kinds of an address are on the wire.
pub data AddressType : Type 0 where
  ipv4 domain ipv6 other : AddressType

pub address_type : ℕ → AddressType
address_type b = if b == 1 then ipv4 else if b == 3 then domain else if b == 4 then ipv6 else other

abbrev pub auth_reply : List ℕ
auth_reply = 5 ∷ 0 ∷ []

unfoldable pub reply : ℕ → List ℕ
reply status = 5 ∷ status ∷ 0 ∷ 1 ∷ 0 ∷ 0 ∷ 0 ∷ 0 ∷ 0 ∷ 0 ∷ []

pub big_endian : List ℕ → ℕ
big_endian b = byte 0 b * 256 + byte 1 b

module _ (ip_string : List ℕ → Text) (decimal : ℕ → Text) where
  -- the bytes of the destination's host, and the input after them
  pub read_host : AddressType → List ℕ → Option (Text × List ℕ)
  read_host ipv4 s = elim (read_full 4 s) [ none ↦ none | some r ↦ some (ip_string r.0, r.1) ]
  read_host domain s = elim (read_full 1 s) [ none ↦ none | some l ↦ read_full (byte 0 l.0) l.1 ]
  read_host ipv6 s = elim (read_full 16 s) [
    | none ↦ none
    | some r ↦ some (codes "[" ++ ip_string r.0 ++ codes "]", r.1)
  ]
  read_host other s = none

  pub dest_addr : Text → List ℕ → Text
  dest_addr dest_host port = dest_host ++ codes ":" ++ decimal (big_endian port)

  -- What the other side decides: whether the first write works, and which dials do.
  pub record Peer : Type 0 where
    pub write_ok : Bool
    pub dials : Text → Bool

  -- from the port on
  pub dial_dest : Peer → Text → List ℕ → Outcome
  dial_dest p dest_host s = elim (read_full 2 s) [
    | none ↦ record { written = auth_reply ∷ []; ending = cut_off }
    | some r ↦
        if p.dials (dest_addr dest_host r.0)
        then record {
          written = auth_reply ∷ reply 0 ∷ [];
          ending = tunnel (dest_addr dest_host r.0) r.1;
        }
        else record { written = auth_reply ∷ reply 5 ∷ []; ending = refused }
  ]

  is_other : AddressType → Bool
  is_other other = true
  is_other _ = false

  -- from the address on
  pub read_address : Peer → AddressType → List ℕ → Outcome
  unfolding is_other
  read_address p kind s =
      if is_other kind
      then record { written = auth_reply ∷ reply 8 ∷ []; ending = bad_address }
      else elim (read_host kind s) [
        | none ↦ record { written = auth_reply ∷ []; ending = cut_off }
        | some h ↦ dial_dest p h.0 h.1
      ]

  -- from the request on
  unfoldable pub read_request : Peer → List ℕ → Outcome
  read_request p s = elim (read_full 4 s) [
    | none ↦ record { written = auth_reply ∷ []; ending = cut_off }
    | some r ↦
        if not (byte 0 r.0 == 5)
        then record { written = auth_reply ∷ []; ending = bad_version }
        else if not (byte 1 r.0 == 1)
        then record { written = auth_reply ∷ reply 7 ∷ []; ending = bad_command }
        else read_address p (address_type (byte 3 r.0)) r.1
  ]

  -- after the greeting's two bytes
  pub read_methods : Peer → ℕ → List ℕ → Outcome
  read_methods p n s = elim (read_full n s) [
    | none ↦ record { written = []; ending = cut_off }
    | some r ↦
        if p.write_ok then read_request p r.1 else record { written = []; ending = write_failed }
  ]

  pub handle_socks5 : Peer → List ℕ → Outcome
  handle_socks5 p s = elim (read_full 2 s) [
    | none ↦ record { written = []; ending = cut_off }
    | some r ↦
        if byte 0 r.0 == 5
        then read_methods p (byte 1 r.0) r.1
        else record { written = []; ending = bad_version }
  ]
