-- ===== src/Ca/Username.antt =====
-- DeriveUsername of ca/ca.go: from a Ziti identity name to a Linux user name.
pub mod Laws
use ziti_ssh.Prelude.{
  ℕ, zero, suc, ◌+◌, ◌≤◌, ◌≡◌, refl, Bool, true, false, ◌&&◌, ◌||◌, List, [], ◌∷◌, ◌++◌, ◌==◌, leb,
  if◌then◌else◌, take, map,
}
use ziti_ssh.Text.{Text}

unfoldable pub is_digit : ℕ → Bool
is_digit r = leb b'0' r && leb r b'9'

-- [a-z0-9_-]
unfoldable pub is_name_rune : ℕ → Bool
unfolding is_digit
is_name_rune r = leb b'a' r && leb r b'z' || is_digit r || r == b'_' || r == b'-'

-- step 2: the loop that writes to the builder
pub replace_runes : Text → Text
replace_runes [] = []
replace_runes (r ∷ s) = (if is_name_rune r then r else b'_') ∷ replace_runes s

-- step 3
pub prefix_digit : Text → Text
prefix_digit [] = []
prefix_digit (r ∷ s) = if is_digit r then b'z' ∷ r ∷ s else r ∷ s

abbrev pub max_username : ℕ
max_username = 32

-- `to_lower` is unicode.ToLower.
unfoldable pub derive_username : (ℕ → ℕ) → Text → Text
unfolding replace_runes prefix_digit
derive_username to_lower identity =
    take max_username (prefix_digit (replace_runes (map to_lower identity)))
