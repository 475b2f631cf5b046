-- ===== src/Host/Permissions/Entries.antt =====
-- Resolved permissions are an entry of the config, or the global ones.
use ziti_ssh.Prelude.{
  ◌≡◌, ◌⊎◌, inl, inr, ap, sym, Bool, List, [], ◌∷◌, Option, none, some, arith, All, Option-cases,
  Bool-cases, subst,
}
use ziti_ssh.Text.{Text, text_eq}
use ziti_ssh.Dict.{Dict, lookup}
use ziti_ssh.Host.Permissions.{
  IdentityPermissions, PermissionsConfig, Best, resolve, best_from, consider, pattern_specificity,
}
use ziti_ssh.Host.Permissions.Specific.{resolve_exact}

some_best : (b c : Best) → some b ≡ some c → b ≡ c
some_best b c e = ground (arith, e)

module _ (P : IdentityPermissions → Type 0) where
  abbrev BestHas : Option Best → Type 0
  BestHas none = Unit
  BestHas (some b) = P b.entry

  lookup-All :
      (k : Text) (m : Dict IdentityPermissions) (e : IdentityPermissions)
      → All (λ r. P r.1) m
      → lookup k m ≡ some e
      → P e
  unfolding lookup
  lookup-All k [] e h g = cc
  lookup-All k ((j, w) ∷ m) e h g = elim (Bool-cases (text_eq j k)) [
    | inl same ↦ subst P (ground (arith, g, same)) h.0
    | inr other ↦ lookup-All k m e h.1 (ground (arith, g, other))
  ]

  module _ (path_match : Text → Text → Option Bool) (id : Text) where
    consider_cases :
        (best : Option Best) (e : Text × IdentityPermissions)
        → (consider path_match id best e ≡ best)
          ⊎ (consider path_match id best e
              ≡ some (record {
                prefix_len = (pattern_specificity e.0).0;
                total_literals = (pattern_specificity e.0).1;
                entry = e.1;
              }))
    unfolding consider
    consider_cases best e = ground arith

    consider-Has :
        (best : Option Best) (e : Text × IdentityPermissions)
        → BestHas best
        → P e.1
        → BestHas (consider path_match id best e)
    consider-Has best e h p = elim (consider_cases best e) [
      | inl same ↦ subst BestHas (sym same) h
      | inr new ↦ subst BestHas (sym new) p
    ]

    best_from-Has :
        (best : Option Best) (m : Dict IdentityPermissions)
        → BestHas best
        → All (λ r. P r.1) m
        → BestHas (best_from path_match id best m)
    unfolding best_from
    best_from-Has best [] h g = h
    best_from-Has best (e ∷ m) h g =
        best_from-Has (consider path_match id best e) m (consider-Has best e h g.0) g.1

    found-Has : (o : Option Best) (best : Best) → BestHas o → o ≡ some best → P best.entry
    found-Has none best h e = cc
    found-Has (some b) best h e = subst P (ap (λ x. x.entry) (some_best b best e)) h

    -- What holds of all entries of a config holds of the resolved permissions, unless they are the
    -- global ones.
    pub resolve_entry :
        (pc : PermissionsConfig) (groups : List Text) (rule : Text)
        → All (λ r. P r.1) pc.permissions
        → P (resolve path_match (some pc) id groups rule)
          ⊎ (resolve path_match (some pc) id groups rule
              ≡ record { groups = groups; sudoers_rule = rule })
    unfolding resolve
    resolve_entry pc groups rule h = elim (Option-cases (lookup id pc.permissions)) [
      | inr (entry, e) ↦ inl (
          subst P (sym (resolve_exact path_match id pc groups rule entry e))
            (lookup-All id pc.permissions entry h e))
      | inl missing ↦ elim (Option-cases (best_from path_match id none pc.permissions)) [
        | inl no_best ↦ inr (ground (arith, missing, no_best))
        | inr (best, e) ↦ inl (
            subst P (ground (arith, missing, e)) (
              found-Has (best_from path_match id none pc.permissions) best
                (best_from-Has none pc.permissions tt h) e))
      ]
    ]
