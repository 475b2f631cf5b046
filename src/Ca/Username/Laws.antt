-- ===== src/Ca/Username/Laws.antt =====
-- What DeriveUsername returns.
use ziti_ssh.Prelude.{
  ℕ, ◌≤◌, ◌<◌, ◌≡◌, refl, ap, ◌∙◌, Bool, true, false, [], ◌∷◌, take, map, All, All-take, length,
  length-take_le, take_all, arith,
}
use ziti_ssh.Text.{Text, is_empty}
use ziti_ssh.Text.Trim.{IsVisible}
use ziti_ssh.Ca.Username.{
  is_digit, is_name_rune, replace_runes, prefix_digit, max_username, derive_username,
}

abbrev starts_with_digit : Text → Bool
starts_with_digit [] = false
starts_with_digit (r ∷ s) = is_digit r

-- The user names that the four steps promise.
pub record IsUsername (s : Text) : Type 0 where
  pub runes : All (λ r. is_name_rune r ≡ true) s
  pub short : length s ≤ max_username
  pub no_digit : starts_with_digit s ≡ false

-- What is assumed of unicode.ToLower: it leaves lower-case letters, digits, `_` and `-` alone.
pub record KeepsNames (to_lower : ℕ → ℕ) : Type 0 where
  pub keeps : (r : ℕ) → is_name_rune r ≡ true → to_lower r ≡ r

replace_runes-All : (s : Text) → All (λ r. is_name_rune r ≡ true) (replace_runes s)
unfolding replace_runes
replace_runes-All [] = tt
replace_runes-All (r ∷ s) = (unfold is_name_rune in ground arith, replace_runes-All s)

prefix_digit-All :
    (s : Text)
    → All (λ r. is_name_rune r ≡ true) s
    → All (λ r. is_name_rune r ≡ true) (prefix_digit s)
unfolding prefix_digit is_name_rune
prefix_digit-All [] h = tt
prefix_digit-All (r ∷ s) h = ground arith

take-prefix_digit : (s : Text) → starts_with_digit (take max_username (prefix_digit s)) ≡ false
unfolding prefix_digit is_digit
take-prefix_digit [] = refl
take-prefix_digit (r ∷ s) = ground arith

-- The result has runes of [a-z0-9_-] only, at most 32 of them, and no digit at the front.
pub derive_username-IsUsername :
    (to_lower : ℕ → ℕ) (identity : Text) → IsUsername (derive_username to_lower identity)
unfolding derive_username
derive_username-IsUsername to_lower identity = record {
  runes =
      All-take _ max_username _ (prefix_digit-All _ (replace_runes-All (map to_lower identity)));
  short = length-take_le max_username _;
  no_digit = take-prefix_digit (replace_runes (map to_lower identity));
}

-- The result is empty exactly for the empty identity.
pub is_empty-derive_username :
    (to_lower : ℕ → ℕ) (identity : Text)
    → is_empty (derive_username to_lower identity) ≡ is_empty identity
unfolding derive_username
is_empty-derive_username to_lower [] = refl
is_empty-derive_username to_lower (r ∷ s) = ground arith

module _ (to_lower : ℕ → ℕ) (k : KeepsNames to_lower) where
  replace_runes_fixed :
      (s : Text) → All (λ r. is_name_rune r ≡ true) s → replace_runes (map to_lower s) ≡ s
  unfolding replace_runes
  replace_runes_fixed [] h = refl
  replace_runes_fixed (r ∷ s) h = ground (arith, k.keeps r, replace_runes_fixed s h.1)

  prefix_digit_fixed : (s : Text) → starts_with_digit s ≡ false → prefix_digit s ≡ s
  unfolding prefix_digit
  prefix_digit_fixed [] h = refl
  prefix_digit_fixed (r ∷ s) h = ground arith

  -- A user name of that form is its own user name.
  derive_username_fixed : (s : Text) → IsUsername s → derive_username to_lower s ≡ s
  unfolding derive_username
  derive_username_fixed s u =
      ap (λ t. take max_username (prefix_digit t)) (replace_runes_fixed s u.runes)
      ∙ ap (take max_username) (prefix_digit_fixed s u.no_digit)
      ∙ take_all max_username s u.short

  -- A derived user name derives itself, if ToLower leaves [a-z0-9_-] alone.
  pub derive_username_idem :
      (identity : Text)
      → derive_username to_lower (derive_username to_lower identity)
        ≡ derive_username to_lower identity
  derive_username_idem identity =
      derive_username_fixed _ (derive_username-IsUsername to_lower identity)

  -- An identity that starts with a dash derives a name that starts with a dash, if ToLower leaves
  -- [a-z0-9_-] alone.
  pub derive_username_leading_dash :
      (s : Text) → (t : Text) × (derive_username to_lower (b'-' ∷ s) ≡ b'-' ∷ t)
  unfolding derive_username is_name_rune
  derive_username_leading_dash s =
      (take 31 (replace_runes (map to_lower s)), rw (k.keeps b'-' refl))

name_rune_visible : (r : ℕ) → is_name_rune r ≡ true → (32 < r) × (r < 127)
unfolding is_name_rune
name_rune_visible r h = ground arith

IsUsername-IsVisible : (s : Text) → All (λ r. is_name_rune r ≡ true) s → IsVisible s
IsUsername-IsVisible [] h = tt
IsUsername-IsVisible (r ∷ s) h = (name_rune_visible r h.0, IsUsername-IsVisible s h.1)
