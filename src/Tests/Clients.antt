-- ===== src/Tests/Clients.antt =====
-- The client: a SOCKS5 request, and the tree of a server that tries to climb out.
use ziti_ssh.Prelude.{ℕ, ◌≡◌, refl, true, List, [], ◌∷◌, ◌++◌, All}
use ziti_ssh.Text.{Text, codes}
use ziti_ssh.Client.Socks5.{Peer, handle_socks5, auth_reply, reply, tunnel}
use ziti_ssh.Client.Socks5.Laws.{domain_request, handle_socks5-domain_request}
use ziti_ssh.Client.SafeName.{
  Node, file, folder, entry, no_entry, download_node, IsAllowed, download_node-IsAllowed,
}

abbrev show_bytes : List ℕ → Text
show_bytes b = b

abbrev show_port : ℕ → Text
show_port n = n ∷ []

abbrev open_peer : Peer show_bytes show_port
open_peer = record { write_ok = true; dials = λ a. true }

handle_socks5-domain_request_example :
    handle_socks5 show_bytes show_port open_peer
      (domain_request (0 ∷ 2 ∷ []) (codes "db") 5432 ++ codes "hello")
    ≡ record {
      written = auth_reply ∷ reply 0 ∷ [];
      ending = tunnel (codes "db" ++ codes ":" ++ show_port 5432) (codes "hello");
    }
handle_socks5-domain_request_example =
    handle_socks5-domain_request show_bytes show_port open_peer (0 ∷ 2 ∷ []) (codes "db") 5432
      (codes "hello") refl refl

abbrev hostile : Node
hostile =
    folder true true true
      (entry (codes "a") (file true true true) (entry (codes "..") (file true true true) no_entry))

download_node-IsAllowed_example :
    All
      (IsAllowed (codes "home" ∷ codes "d" ∷ []))
      (download_node (codes "home" ∷ codes "d" ∷ []) hostile).0
download_node-IsAllowed_example = download_node-IsAllowed hostile (codes "home" ∷ codes "d" ∷ [])
