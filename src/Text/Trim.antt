-- ===== src/Text/Trim.antt =====
-- strings.TrimSpace, and the lines of bufio.Scanner.
use ziti_ssh.Prelude.{
  ℕ, ◌≡◌, refl, ap, Bool, false, ◌&&◌, ◌||◌, [], ◌∷◌, ◌++◌, arith, ◌==◌, leb, if◌then◌else◌, All,
  ◌∙◌, ◌<◌,
}
use ziti_ssh.Text.Defs.{Text, is_empty}

-- unicode.IsSpace
unfoldable pub is_space : ℕ → Bool
is_space c =
    leb 9 c && leb c 13
    || c == 32
    || c == 0x85
    || c == 0xA0
    || c == 0x1680
    || leb 0x2000 c && leb c 0x200a
    || c == 0x2028
    || c == 0x2029
    || c == 0x202f
    || c == 0x205f
    || c == 0x3000

unfoldable pub trim_left : Text → Text
trim_left [] = []
trim_left (c ∷ s) = let rest = trim_left s in if is_space c then rest else c ∷ s

unfoldable pub trim_right : Text → Text
trim_right [] = []
trim_right (c ∷ s) = let rest = trim_right s in if is_empty rest && is_space c then [] else c ∷ rest

-- strings.TrimSpace
unfoldable pub trim_space : Text → Text
unfolding trim_left trim_right is_space
trim_space s = trim_right (trim_left s)

-- A text of visible ASCII runes.
abbrev pub IsVisible : Text → Type 0
IsVisible s = All (λ c. (32 < c) × (c < 127)) s

is_space_visible : (c : ℕ) → 32 < c → c < 127 → is_space c ≡ false
unfolding is_space
is_space_visible c h k = ground arith

trim_left_visible : (s : Text) → IsVisible s → trim_left s ≡ s
unfolding trim_left
trim_left_visible [] h = refl
trim_left_visible (c ∷ s) h = ground (arith, is_space_visible c h.0.0 h.0.1)

trim_right_visible : (s : Text) → IsVisible s → trim_right s ≡ s
unfolding trim_right
trim_right_visible [] h = refl
trim_right_visible (c ∷ s) h =
    ground (arith, is_space_visible c h.0.0 h.0.1, trim_right_visible s h.1)

-- Trimming leaves a text of visible runes alone.
pub trim_space_visible : (s : Text) → IsVisible s → trim_space s ≡ s
unfolding trim_space
trim_space_visible s h = ap trim_right (trim_left_visible s h) ∙ trim_right_visible s h

trim_right-newline : (s : Text) → trim_right (s ++ b'\n' ∷ []) ≡ trim_right s
unfolding trim_right is_space
trim_right-newline [] = ground arith
trim_right-newline (c ∷ s) = ground (arith, trim_right-newline s)

-- A line end at the end is trimmed away.
pub trim_space-newline : (s : Text) → trim_space (s ++ b'\n' ∷ []) ≡ trim_space s
unfolding trim_space trim_left
trim_space-newline [] = unfold is_space trim_right in ground arith
trim_space-newline (c ∷ s) = ground (arith, trim_space-newline s, trim_right-newline (c ∷ s))
