-- ===== src/Host/Permissions/Specific.antt =====
-- The loop over the map finds a matching pattern that no other matching pattern beats.
use ziti_ssh.Prelude.{
  ℕ, ◌≤◌, ◌<◌, ◌≡◌, refl, ap, ◌∙◌, Bool, true, List, [], ◌∷◌, Option, none, some, arith, ◌⊎◌, inl,
  inr,
}
use ziti_ssh.Text.{Text, text_dec, text_eq_refl}
use ziti_ssh.Dict.{Dict, lookup, Distinct}
use ziti_ssh.Host.Permissions.{
  IdentityPermissions, PermissionsConfig, Best, pattern_specificity, is_glob, consider, best_from,
  resolve,
}

-- The order on scores: first the prefix, then the literals.
abbrev pub Beats : ℕ × ℕ → ℕ × ℕ → Type 0
Beats a b = (b.0 < a.0) ⊎ ((b.0 ≡ a.0) × (b.1 < a.1))

-- The best so far is there, and the score does not beat it.
abbrev AtLeast : Option Best → ℕ × ℕ → Type 0
AtLeast none s = ⊥
AtLeast (some b) s = (s.0 < b.prefix_len) ⊎ ((s.0 ≡ b.prefix_len) × (s.1 ≤ b.total_literals))

abbrev best_of : Text → IdentityPermissions → Best
best_of pattern entry = record {
  prefix_len = (pattern_specificity pattern).0;
  total_literals = (pattern_specificity pattern).1;
  entry = entry;
}

module _ (path_match : Text → Text → Option Bool) (id : Text) where
  -- The pattern is a glob that matches the identity.
  abbrev pub Applies : Text → Type 0
  Applies pattern = (is_glob pattern ≡ true) × (path_match pattern id ≡ some true)

  consider-AtLeast :
      (best : Option Best) (pattern : Text) (entry : IdentityPermissions) (s : ℕ × ℕ)
      → AtLeast best s
      → AtLeast (consider path_match id best (pattern, entry)) s
  unfolding consider
  consider-AtLeast none pattern entry s h = elim h [ ]
  consider-AtLeast (some b) pattern entry s h = ground arith

  consider-Applies :
      (best : Option Best) (pattern : Text) (entry : IdentityPermissions)
      → Applies pattern
      → AtLeast (consider path_match id best (pattern, entry)) (pattern_specificity pattern)
  unfolding consider
  consider-Applies none pattern entry h = ground arith
  consider-Applies (some b) pattern entry h = ground arith

  -- A round keeps the best, or takes the entry of an applying pattern.
  consider-cases :
      (best : Option Best) (pattern : Text) (entry : IdentityPermissions)
      → (consider path_match id best (pattern, entry) ≡ best)
        ⊎ (Applies pattern
            × (consider path_match id best (pattern, entry) ≡ some (best_of pattern entry)))
  unfolding consider
  consider-cases none pattern entry = ground arith
  consider-cases (some b) pattern entry = ground arith

  best_from-AtLeast :
      (best : Option Best) (m : Dict IdentityPermissions) (s : ℕ × ℕ)
      → AtLeast best s
      → AtLeast (best_from path_match id best m) s
  unfolding best_from
  best_from-AtLeast best [] s h = h
  best_from-AtLeast best ((k, v) ∷ m) s h =
      best_from-AtLeast (consider path_match id best (k, v)) m s (consider-AtLeast best k v s h)

  -- The result is at least as good as every applying pattern of the map.
  best_from-Applies :
      (best : Option Best) (m : Dict IdentityPermissions) (pattern : Text)
      (entry : IdentityPermissions)
      → lookup pattern m ≡ some entry
      → Applies pattern
      → AtLeast (best_from path_match id best m) (pattern_specificity pattern)
  unfolding best_from lookup
  best_from-Applies best [] pattern entry h a = cc
  best_from-Applies best ((k, v) ∷ m) pattern entry h a = elim (text_dec k pattern) [
    | yes e ↦
        best_from-AtLeast (consider path_match id best (k, v)) m _
          (rw e (consider-Applies best pattern v a))
    | no ne ↦
        best_from-Applies (consider path_match id best (k, v)) m pattern entry (ground arith) a
  ]

  -- The result comes from where the loop began, or from an applying pattern of the map.
  best_from-cases :
      (best : Option Best) (m : Dict IdentityPermissions)
      → Distinct m
      → (best_from path_match id best m ≡ best)
        ⊎ ((pattern : Text) × (entry : IdentityPermissions) × (lookup pattern m ≡ some entry)
            × Applies pattern
            × (best_from path_match id best m ≡ some (best_of pattern entry)))
  unfolding best_from lookup
  best_from-cases best [] d = inl refl
  best_from-cases best ((k, v) ∷ m) d =
      elim (best_from-cases (consider path_match id best (k, v)) m d.1) [
        | inl same ↦ elim (consider-cases best k v) [
          | inl kept ↦ inl (same ∙ kept)
          | inr (a, taken) ↦ inr (k, v, rw (text_eq_refl k) refl, a, same ∙ taken)
        ]
        | inr (pattern, entry, found, a, e) ↦ inr (pattern, entry, ground (arith, d.0, found), a, e)
      ]

  AtLeast-Beats :
      (pattern : Text) (entry : IdentityPermissions) (s : ℕ × ℕ)
      → AtLeast (some (best_of pattern entry)) s
      → ¬ Beats s (pattern_specificity pattern)
  AtLeast-Beats pattern entry s h k = omega arith

  -- The entry is that of an applying pattern which no applying pattern beats.
  pub record IsWinner (m : Dict IdentityPermissions) (entry : IdentityPermissions) : Type 0 where
    pub pattern : Text
    pub found : lookup pattern m ≡ some entry
    pub applies : Applies pattern
    pub unbeaten :
        (p : Text) (e : IdentityPermissions)
        → lookup p m ≡ some e
        → Applies p
        → ¬ Beats (pattern_specificity p) (pattern_specificity pattern)

  module _ (pc : PermissionsConfig) (groups : List Text) (rule : Text) where
    -- An exact key wins over every pattern and over the fallback.
    pub resolve_exact :
        (entry : IdentityPermissions)
        → lookup id pc.permissions ≡ some entry
        → resolve path_match (some pc) id groups rule ≡ entry
    unfolding resolve
    resolve_exact entry h = ground arith

    -- With no exact key, the entry is that of a matching pattern which no other matching pattern
    -- beats, or the fallback where none matches.
    pub resolve_glob :
        Distinct pc.permissions
        → lookup id pc.permissions ≡ none
        → IsWinner pc.permissions (resolve path_match (some pc) id groups rule)
          ⊎ (((p : Text) (e : IdentityPermissions) → lookup p pc.permissions ≡ some e → ¬ Applies p)
              × (resolve path_match (some pc) id groups rule
                  ≡ record { groups = groups; sudoers_rule = rule }))
    unfolding resolve
    resolve_glob d h = elim (best_from-cases none pc.permissions d) [
      | inl none_found ↦ inr (
        (λ p e found a. rw none_found at (best_from-Applies none pc.permissions p e found a)),
        ground (arith, h, none_found),
      )
      | inr (pattern, entry, found, a, e) ↦ inl (record {
        pattern = pattern;
        found = found ∙ ap some (ground (arith, h, e));
        applies = a;
        unbeaten = λ p e' found' a'.
            AtLeast-Beats pattern entry _
              (rw e at (best_from-Applies none pc.permissions p e' found' a'));
      })
    ]
