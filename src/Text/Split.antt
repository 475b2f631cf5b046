-- ===== src/Text/Split.antt =====
-- strings.Split and strings.Join at a separator of one rune.
use ziti_ssh.Prelude.{
  ℕ, ◌≡◌, refl, ap, inl, inr, List, [], ◌∷◌, ◌++◌, arith, ◌==◌, if◌then◌else◌, All, Bool-cases, ◌∙◌,
  sym,
}
use ziti_ssh.Text.Defs.{Text, Lacks}

abbrev push_head : ℕ → List Text → List Text
push_head c [] = (c ∷ []) ∷ []
push_head c (w ∷ ws) = (c ∷ w) ∷ ws

-- strings.Split(s, d)
unfoldable pub split : ℕ → Text → List Text
split d [] = [] ∷ []
split d (c ∷ s) = let rest = split d s in if c == d then [] ∷ rest else push_head c rest

-- strings.Join(ws, sep)
unfoldable pub join : Text → List Text → Text
join sep [] = []
join sep (w ∷ []) = w
join sep (w ∷ v ∷ ws) = w ++ (sep ++ join sep (v ∷ ws))

pub split-cons : (d : ℕ) (s : Text) → (w : Text) × (ws : List Text) × (split d s ≡ w ∷ ws)
unfolding split
split-cons d [] = ([], [], refl)
split-cons d (c ∷ s) = elim (Bool-cases (c == d)) [
  | inl e ↦ ([], split d s, ground arith)
  | inr n ↦ let (w, ws, h) = split-cons d s in (c ∷ w, ws, ground arith)
]

join_push :
    (c d : ℕ) (w : Text) (ws : List Text)
    → join (d ∷ []) ((c ∷ w) ∷ ws) ≡ c ∷ join (d ∷ []) (w ∷ ws)
unfolding join
join_push c d w [] = refl
join_push c d w (v ∷ ws) = refl

-- Joining the parts gives the text back.
pub join-split : (d : ℕ) (s : Text) → join (d ∷ []) (split d s) ≡ s
unfolding split join
join-split d [] = refl
join-split d (c ∷ s) =
    let (w, ws, h) = split-cons d s in
    let back : join (d ∷ []) (w ∷ ws) ≡ s = (ap (join (d ∷ [])) (sym h)) ∙ join-split d s in
    elim (Bool-cases (c == d)) [
      | inl e ↦ rw (e, h) (ground (arith, back))
      | inr n ↦ rw (n, h) (join_push c d w ws ∙ ap (◌∷◌ c) back)
    ]

-- Every part lacks the separator.
pub split-Lacks : (d : ℕ) (s : Text) → All (Lacks d) (split d s)
unfolding split
split-Lacks d [] = (tt, tt)
split-Lacks d (c ∷ s) = let (w, ws, h) = split-cons d s in ground (arith, split-Lacks d s, h)

pub split_word : (d : ℕ) (w : Text) → Lacks d w → split d w ≡ w ∷ []
unfolding split
split_word d [] h = refl
split_word d (c ∷ w) h = ground (arith, split_word d w)

pub split_word-append : (d : ℕ) (w s : Text) → Lacks d w → split d (w ++ d ∷ s) ≡ w ∷ split d s
unfolding split
split_word-append d [] s h = ground arith
split_word-append d (c ∷ w) s h = ground (arith, split_word-append d w s)

-- Splitting what was joined gives the parts back, if none holds the separator.
pub split-join :
    (d : ℕ) (w : Text) (ws : List Text)
    → All (Lacks d) (w ∷ ws)
    → split d (join (d ∷ []) (w ∷ ws)) ≡ w ∷ ws
unfolding join
split-join d w [] h = split_word d w h.0
split-join d w (v ∷ ws) h =
    split_word-append d w (join (d ∷ []) (v ∷ ws)) h.0 ∙ ap (◌∷◌ w) (split-join d v ws h.1)

-- A separator at the end makes one more part, the empty one.
pub split-append_end : (d : ℕ) (s : Text) → split d (s ++ d ∷ []) ≡ split d s ++ [] ∷ []
unfolding split
split-append_end d [] = ground arith
split-append_end d (c ∷ s) =
    let (w, ws, h) = split-cons d s in ground (arith, split-append_end d s, h)
