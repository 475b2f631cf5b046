-- ===== src/Host/Permissions/Order.antt =====
-- Whether the order in which Go ranges over the map shows in the result.
use ziti_ssh.Prelude.{
  ℕ, ◌≡◌, ◌≢◌, sym, ap, ◌∙◌, Bool, List, [], ◌∷◌, Option, some, arith, inl, inr, Option-cases,
}
use mathlib.Core.Option.{some-injective}
use ziti_ssh.Text.{Text, text_eq_ne}
use ziti_ssh.Dict.{Dict, lookup, Distinct}
use ziti_ssh.Host.Permissions.{IdentityPermissions, PermissionsConfig, pattern_specificity, resolve}
use ziti_ssh.Host.Permissions.Specific.{Beats, Applies, IsWinner, resolve_exact, resolve_glob}

-- Two lists are the same map.
abbrev pub SameMap : Dict IdentityPermissions → Dict IdentityPermissions → Type 0
SameMap m n = (k : Text) → lookup k m ≡ lookup k n

module _ (path_match : Text → Text → Option Bool) (id : Text) (pc qc : PermissionsConfig)
    (groups : List Text) (rule : Text) where
  -- No two patterns that match the identity have the same score.
  abbrev pub NoTies : Type 0
  NoTies =
      (p q : Text) (e f : IdentityPermissions)
      → lookup p pc.permissions ≡ some e
      → lookup q pc.permissions ≡ some f
      → Applies path_match id p
      → Applies path_match id q
      → pattern_specificity p ≡ pattern_specificity q
      → p ≡ q

  unbeaten_eq : (s t : ℕ × ℕ) → ¬ Beats s t → ¬ Beats t s → s ≡ t
  unbeaten_eq s t h k = ground arith

  winners_agree :
      {e f : IdentityPermissions}
      → SameMap pc.permissions qc.permissions
      → NoTies
      → IsWinner path_match id pc.permissions e
      → IsWinner path_match id qc.permissions f
      → e ≡ f
  winners_agree {e} {f} same unique w v =
      let found : lookup v.pattern pc.permissions ≡ some f = same v.pattern ∙ v.found in
      let tie : pattern_specificity w.pattern ≡ pattern_specificity v.pattern =
        unbeaten_eq _ _ (v.unbeaten w.pattern e (sym (same w.pattern) ∙ w.found) w.applies)
          (w.unbeaten v.pattern f found v.applies) in
      let one : w.pattern ≡ v.pattern =
        unique w.pattern v.pattern e f w.found found w.applies v.applies tie in
      some-injective e f (sym w.found ∙ ap (λ k. lookup k pc.permissions) one ∙ found)

  -- Without ties the order of the map does not show: the same map gives the same permissions.
  pub resolve_order :
      Distinct pc.permissions
      → Distinct qc.permissions
      → SameMap pc.permissions qc.permissions
      → NoTies
      → resolve path_match (some pc) id groups rule ≡ resolve path_match (some qc) id groups rule
  resolve_order d d' same unique = elim (Option-cases (lookup id pc.permissions)) [
    | inr (entry, h) ↦
        resolve_exact path_match id pc groups rule entry h
        ∙ sym (resolve_exact path_match id qc groups rule entry (sym (same id) ∙ h))
    | inl h ↦ elim (resolve_glob path_match id pc groups rule d h) [
      | inl w ↦ elim (resolve_glob path_match id qc groups rule d' (sym (same id) ∙ h)) [
        | inl v ↦ winners_agree same unique w v
        | inr (no_match, _) ↦
            absurd (no_match w.pattern _ (sym (same w.pattern) ∙ w.found) w.applies)
      ]
      | inr (no_match, e) ↦
          elim (resolve_glob path_match id qc groups rule d' (sym (same id) ∙ h)) [
            | inl v ↦ absurd (no_match v.pattern _ (same v.pattern ∙ v.found) v.applies)
            | inr (_, e') ↦ e ∙ sym e'
          ]
    ]
  ]

-- With a tie it does: of two patterns with one score, both matching, the first that the range
-- meets wins.
pub resolve_tie :
    (path_match : Text → Text → Option Bool) (id p q : Text) (e f : IdentityPermissions)
    (groups : List Text) (rule : Text)
    → Applies path_match id p
    → Applies path_match id q
    → p ≢ id
    → q ≢ id
    → pattern_specificity p ≡ pattern_specificity q
    → (resolve path_match (some (record { permissions = (p, e) ∷ (q, f) ∷ [] })) id groups rule ≡ e)
      × (resolve path_match (some (record { permissions = (q, f) ∷ (p, e) ∷ [] })) id groups rule
          ≡ f)
unfolding resolve lookup
resolve_tie path_match id p q e f groups rule a b np nq tie =
    ground (arith, text_eq_ne p id np, text_eq_ne q id nq)
