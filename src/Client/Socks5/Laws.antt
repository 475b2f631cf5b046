-- ===== src/Client/Socks5/Laws.antt =====
-- A request for a domain reaches the host and port that were asked for, and every end of the
-- handshake has its replies.
use ziti_ssh.Prelude.{
  ℕ, ◌+◌, ◌*◌, ◌/◌, ◌%◌, ◌≡◌, refl, ap, ◌∙◌, true, List, [], ◌∷◌, ◌++◌, some, arith, length,
  append_assoc, ◌⊎◌,
}
use ziti_ssh.Text.{Text, codes}
use ziti_ssh.Client.Socks5.{
  Peer, Ending, Outcome, cut_off, bad_version, write_failed, bad_command, bad_address, refused,
  tunnel, read_full, byte, address_type, domain, auth_reply, reply, big_endian, read_host,
  dest_addr, dial_dest, read_address, read_request, read_methods, handle_socks5,
}

read_full-append : (t s : List ℕ) → read_full (length t) (t ++ s) ≡ some (t, s)
unfolding read_full
read_full-append [] s = refl
read_full-append (b ∷ t) s = rw (read_full-append t s) refl

-- The bytes of a client that offers methods and asks for a host by name.
pub domain_request : List ℕ → Text → ℕ → List ℕ
domain_request methods host_ port =
    5
    ∷ length methods
    ∷ (methods ++ (5 ∷ 1 ∷ 0 ∷ 3 ∷ length host_ ∷ (host_ ++ (port / 256 ∷ port % 256 ∷ []))))

-- The replies that belong to an end of the handshake.
pub replies : Ending → List (List ℕ)
replies cut_off = []
replies bad_version = []
replies write_failed = []
replies bad_command = reply 7 ∷ []
replies bad_address = reply 8 ∷ []
replies refused = reply 5 ∷ []
replies (tunnel d s) = reply 0 ∷ []

module _ (ip_string : List ℕ → Text) (decimal : ℕ → Text) (p : Peer ip_string decimal) where
  port_bytes : (port : ℕ) → port / 256 * 256 + port % 256 ≡ port
  port_bytes port = omega arith

  tunnelled : Text → ℕ → List ℕ → Outcome
  tunnelled host_ port rest = record {
    written = auth_reply ∷ reply 0 ∷ [];
    ending = tunnel (host_ ++ codes ":" ++ decimal port) rest;
  }

  dial_dest_ok :
      (host_ : Text) (port : ℕ) (rest : List ℕ)
      → p.dials (host_ ++ codes ":" ++ decimal port) ≡ true
      → dial_dest ip_string decimal p host_ (port / 256 ∷ port % 256 ∷ rest)
        ≡ tunnelled host_ port rest
  unfolding dial_dest read_full dest_addr big_endian byte tunnelled
  dial_dest_ok host_ port rest d = rw (port_bytes port, d) refl

  read_address_domain :
      (host_ : Text) (s : List ℕ)
      → read_address ip_string decimal p domain (length host_ ∷ (host_ ++ s))
        ≡ dial_dest ip_string decimal p host_ s
  unfolding read_address read_host read_full byte
  read_address_domain host_ s = rw (read_full-append host_ s) refl

  read_request_connect :
      (s : List ℕ)
      → read_request ip_string decimal p (5 ∷ 1 ∷ 0 ∷ 3 ∷ s)
        ≡ read_address ip_string decimal p domain s
  unfolding read_request read_full byte address_type
  read_request_connect s = refl

  read_methods_ok :
      (methods s : List ℕ)
      → p.write_ok ≡ true
      → read_methods ip_string decimal p (length methods) (methods ++ s)
        ≡ read_request ip_string decimal p s
  unfolding read_methods
  read_methods_ok methods s w = ground (arith, read_full-append methods s, w)

  greeting :
      (n : ℕ) (s : List ℕ)
      → handle_socks5 ip_string decimal p (5 ∷ n ∷ s) ≡ read_methods ip_string decimal p n s
  unfolding handle_socks5 read_full byte
  greeting n s = refl

  -- A client that asks for a host by name and a port gets its tunnel, and nothing but what it sent
  -- after its request goes through it, provided that the reply can be written and the dial works.
  pub handle_socks5-domain_request :
      (methods : List ℕ) (host_ : Text) (port : ℕ) (rest : List ℕ)
      → p.write_ok ≡ true
      → p.dials (host_ ++ codes ":" ++ decimal port) ≡ true
      → handle_socks5 ip_string decimal p (domain_request methods host_ port ++ rest) ≡ record {
        written = auth_reply ∷ reply 0 ∷ [];
        ending = tunnel (host_ ++ codes ":" ++ decimal port) rest;
      }
  unfolding domain_request tunnelled
  handle_socks5-domain_request methods host_ port rest w d =
      let port_part : List ℕ = port / 256 ∷ port % 256 ∷ [] in
      let request : List ℕ = 5 ∷ 1 ∷ 0 ∷ 3 ∷ length host_ ∷ (host_ ++ port_part) in
      greeting (length methods) (methods ++ request ++ rest)
      ∙ ap (read_methods ip_string decimal p (length methods)) (append_assoc methods request rest)
      ∙ read_methods_ok methods (request ++ rest) w
      ∙ read_request_connect (length host_ ∷ (host_ ++ port_part ++ rest))
      ∙ ap (λ s. read_address ip_string decimal p domain (length host_ ∷ s))
          (append_assoc host_ port_part rest)
      ∙ read_address_domain host_ (port_part ++ rest)
      ∙ dial_dest_ok host_ port rest d

  -- What has been written says how the handshake ended: the answer to the greeting, then the one
  -- reply that belongs to the end; or nothing at all, if the end came before that answer.
  pub handle_socks5-replies :
      (s : List ℕ)
      → let r = handle_socks5 ip_string decimal p s in
        (r.written ≡ auth_reply ∷ replies r.ending) ⊎ ((r.written ≡ []) × (replies r.ending ≡ []))
  unfolding handle_socks5 read_methods read_request read_address dial_dest replies
  handle_socks5-replies s = ground arith

  -- A tunnel goes only to an address that could be dialled.
  handle_socks5-dials :
      (s : List ℕ) (dest : Text) (rest : List ℕ)
      → (handle_socks5 ip_string decimal p s).ending ≡ tunnel dest rest
      → p.dials dest ≡ true
  unfolding handle_socks5 read_methods read_request read_address dial_dest
  handle_socks5-dials s dest rest h = ground (arith, h)
