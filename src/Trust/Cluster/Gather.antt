-- ===== src/Trust/Cluster/Gather.antt =====
-- The loop of collectClusterCAs on the keys that the controllers present, and how often it keeps a
-- line.
use ziti_ssh.Prelude.{
  suc, ◌≡◌, inl, inr, refl, Bool, true, false, List, [], ◌∷◌, if◌then◌else◌, Option, none, some,
  arith, any, All, Bool-cases, subst,
}
use ziti_ssh.Text.{Text, text_eq, text_eq_refl}
use ziti_ssh.Trust.Keys.Sorting.{occurrences}

-- A controller's key: its bytes, and its line if it has one.
abbrev pub Entry : Type 0
Entry = Text × Option Text

unfoldable pub push_line : Option Text → List Text → List Text
push_line none ls = ls
push_line (some l) ls = l ∷ ls

-- the loop on the keys that the controllers present
unfoldable pub gather : List Text → List (Option Entry) → List Text
gather seen [] = []
gather seen (none ∷ ps) = gather seen ps
gather seen (some (b, l) ∷ ps) =
    let rest = gather seen ps in
    let fresh = gather (b ∷ seen) ps in if any (text_eq b) seen then rest else push_line l fresh

unfoldable pub is_line : Text → Option Text → Bool
is_line z none = false
is_line z (some l) = text_eq l z

unfoldable pub entry_has : Text → Option Entry → Bool
entry_has z none = false
entry_has z (some (b, l)) = is_line z l

-- `Good b l` says that some key has the bytes b and the line l.
module _ (Good : Text → Option Text → Type 0) where
  abbrev pub AllGood : List (Option Entry) → Type 0
  AllGood [] = Unit
  AllGood (none ∷ ps) = AllGood ps
  AllGood (some (b, l) ∷ ps) = Good b l × AllGood ps

module _ (Good : Text → Option Text → Type 0)
    (one_line : (b : Text) (l m : Option Text) → Good b l → Good b m → l ≡ m)
    (one_key : (b c l : Text) → Good b (some l) → Good c (some l) → b ≡ c) where
  is_line-true : (z : Text) (l : Option Text) → is_line z l ≡ true → l ≡ some z
  unfolding is_line
  is_line-true z none h = cc
  is_line-true z (some l) h = ground (arith, h)

  occurrences-push_line :
      (z : Text) (l : Option Text) (ls : List Text)
      → occurrences z (push_line l ls)
        ≡ (if is_line z l then suc (occurrences z ls) else occurrences z ls)
  unfolding occurrences push_line is_line
  occurrences-push_line z none ls = refl
  occurrences-push_line z (some l) ls = refl

  -- The line of a key that was seen is not collected again.
  pub gather_seen :
      (z b : Text) (seen : List Text) (ps : List (Option Entry))
      → AllGood Good ps
      → Good b (some z)
      → any (text_eq b) seen ≡ true
      → occurrences z (gather seen ps) ≡ 0
  unfolding gather
  gather_seen z b seen [] g h e = unfold occurrences in refl
  gather_seen z b seen (none ∷ ps) g h e = gather_seen z b seen ps g h e
  gather_seen z b seen (some (c, l) ∷ ps) g h e =
      let line_z : is_line z l ≡ true → b ≡ c =
        λ t. one_key b c z h (subst (Good c) (is_line-true z l t) g.0) in
      ground (
        arith,
        e,
        gather_seen z b seen ps g.1 h e,
        gather_seen z b (c ∷ seen) ps g.1 h,
        occurrences-push_line z l (gather (c ∷ seen) ps),
        line_z,
      )

  pub gather_not_offered :
      (z : Text) (seen : List Text) (ps : List (Option Entry))
      → any (entry_has z) ps ≡ false
      → occurrences z (gather seen ps) ≡ 0
  unfolding gather entry_has
  gather_not_offered z seen [] h = unfold occurrences in refl
  gather_not_offered z seen (none ∷ ps) h = gather_not_offered z seen ps h
  gather_not_offered z seen (some (c, l) ∷ ps) h = ground (
    arith,
    h,
    gather_not_offered z seen ps,
    gather_not_offered z (c ∷ seen) ps,
    occurrences-push_line z l (gather (c ∷ seen) ps),
  )

  abbrev pub Unseen : Text → List Text → Type 0
  Unseen z seen = (b : Text) → Good b (some z) → any (text_eq b) seen ≡ false

  Unseen-cons :
      (z c : Text) (l : Option Text) (seen : List Text)
      → Good c l
      → is_line z l ≡ false
      → Unseen z seen
      → Unseen z (c ∷ seen)
  unfolding is_line
  Unseen-cons z c l seen g ne un b h =
      let same : b ≡ c → l ≡ some z =
        λ e. one_line c l (some z) g (subst (λ x. Good x (some z)) e h) in
      ground (arith, un b h, ne, same, text_eq_refl z)

  -- A line that some controller offers is collected once.
  pub gather_offered :
      (z : Text) (seen : List Text) (ps : List (Option Entry))
      → AllGood Good ps
      → Unseen z seen
      → any (entry_has z) ps ≡ true
      → occurrences z (gather seen ps) ≡ 1
  unfolding gather entry_has
  gather_offered z seen [] g un h = cc
  gather_offered z seen (none ∷ ps) g un h = gather_offered z seen ps g un h
  gather_offered z seen (some (c, l) ∷ ps) g un h = elim (Bool-cases (is_line z l)) [
    | inl e ↦
        let good : Good c (some z) = subst (Good c) (is_line-true z l e) g.0 in
        ground (
          arith,
          e,
          un c good,
          gather_seen z c (c ∷ seen) ps g.1 good (ground (arith, text_eq_refl c)),
          occurrences-push_line z l (gather (c ∷ seen) ps),
        )
    | inr n ↦ ground (
      arith,
      n,
      h,
      gather_offered z seen ps g.1 un,
      gather_offered z (c ∷ seen) ps g.1 (Unseen-cons z c l seen g.0 n un),
      occurrences-push_line z l (gather (c ∷ seen) ps),
    )
  ]

module _ (Good : Text → Option Text → Type 0) where
  pub All-gather :
      (P : Text → Type 0)
      → ((b l : Text) → Good b (some l) → P l)
      → (seen : List Text) (ps : List (Option Entry)) → AllGood Good ps
      → All P (gather seen ps)
  unfolding gather push_line
  All-gather P of seen [] g = tt
  All-gather P of seen (none ∷ ps) g = All-gather P of seen ps g
  All-gather P of seen (some (c, none) ∷ ps) g =
      ground (arith, All-gather P of seen ps g.1, All-gather P of (c ∷ seen) ps g.1)
  All-gather P of seen (some (c, some l) ∷ ps) g =
      ground (arith, of c l g.0, All-gather P of seen ps g.1, All-gather P of (c ∷ seen) ps g.1)
