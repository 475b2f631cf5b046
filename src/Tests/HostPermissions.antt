-- ===== src/Tests/HostPermissions.antt =====
-- Permissions: an exact key, patterns of different and of equal scores.
use ziti_ssh.Prelude.{
  ℕ, ◌≡◌, ◌⊎◌, inl, inr, refl, sym, ap, ◌∙◌, Bool, true, false, ◌&&◌, ◌||◌, [], ◌∷◌, ◌==◌,
  if◌then◌else◌, Option, none, some, arith,
}
use ziti_ssh.Text.{Text, codes, text_dec}
use ziti_ssh.Dict.{lookup, Distinct}
use ziti_ssh.Host.Permissions.{IdentityPermissions, PermissionsConfig, resolve, pattern_specificity}
use ziti_ssh.Host.Permissions.Specific.{IsWinner, Applies, resolve_glob}
use ziti_ssh.Host.Permissions.Order.{resolve_order, SameMap, NoTies}

-- A matcher that knows a star at the end and the question mark.
unfoldable match_end : Text → Text → Bool
match_end [] [] = true
match_end [] (d ∷ s) = false
match_end (c ∷ p) [] = c == b'*'
match_end (c ∷ p) (d ∷ s) =
    let rest = match_end p s in if c == b'*' then true else (c == d || c == b'?') && rest

abbrev path_match : Text → Text → Option Bool
path_match p id = some (match_end p id)

abbrev admins : IdentityPermissions
admins = record { groups = codes "adm" ∷ []; sudoers_rule = [] }

abbrev guests : IdentityPermissions
guests = record { groups = []; sudoers_rule = [] }

abbrev pc : PermissionsConfig
pc = record { permissions = (codes "a*", admins) ∷ (codes "*", guests) ∷ [] }

abbrev qc : PermissionsConfig
qc = record { permissions = (codes "*", guests) ∷ (codes "a*", admins) ∷ [] }

pc-Distinct : Distinct pc.permissions
unfolding lookup text_dec
pc-Distinct = (refl, (refl, tt))

qc-Distinct : Distinct qc.permissions
unfolding lookup text_dec
qc-Distinct = (refl, (refl, tt))

no_exact : lookup (codes "ab") pc.permissions ≡ none
unfolding lookup text_dec
no_exact = refl

resolve_glob_example :
    IsWinner path_match
      (codes "ab")
      pc.permissions
      (resolve path_match (some pc) (codes "ab") [] [])
    ⊎ (((p : Text) (e : IdentityPermissions)
          → lookup p pc.permissions ≡ some e
          → ¬ Applies path_match (codes "ab") p)
        × (resolve path_match (some pc) (codes "ab") [] []
            ≡ record { groups = []; sudoers_rule = [] }))
resolve_glob_example = resolve_glob path_match (codes "ab") pc [] [] pc-Distinct no_exact

pc_qc-SameMap : SameMap pc.permissions qc.permissions
unfolding lookup
pc_qc-SameMap k = ground (arith, text_dec k (codes "*"))

pc_keys :
    (p : Text) (e : IdentityPermissions)
    → lookup p pc.permissions ≡ some e
    → (p ≡ codes "a*") ⊎ (p ≡ codes "*")
unfolding lookup
pc_keys p e h = ground (arith, h)

scores : (pattern_specificity (codes "a*") ≡ (1, 1)) × (pattern_specificity (codes "*") ≡ (0, 0))
unfolding pattern_specificity
scores = (refl, refl)

no_tie :
    (p q : Text)
    → (p ≡ codes "a*") ⊎ (p ≡ codes "*")
    → (q ≡ codes "a*") ⊎ (q ≡ codes "*")
    → pattern_specificity p ≡ pattern_specificity q
    → p ≡ q
no_tie p q (inl h) (inl k) same = h ∙ sym k
no_tie p q (inr h) (inr k) same = h ∙ sym k
no_tie p q (inl h) (inr k) same =
    let e =
      sym (scores.0)
      ∙ ap pattern_specificity (sym h)
      ∙ same
      ∙ ap pattern_specificity k
      ∙ scores.1 in
    ground (arith, ap (λ (x : ℕ × ℕ). x.0) e)
no_tie p q (inr h) (inl k) same =
    let e =
      sym (scores.1)
      ∙ ap pattern_specificity (sym h)
      ∙ same
      ∙ ap pattern_specificity k
      ∙ scores.0 in
    ground (arith, ap (λ (x : ℕ × ℕ). x.0) e)

pc-NoTies : NoTies path_match (codes "ab") pc qc [] []
pc-NoTies p q e f hp hq ap' aq same = no_tie p q (pc_keys p e hp) (pc_keys q f hq) same

resolve_order_example :
    resolve path_match (some pc) (codes "ab") [] []
    ≡ resolve path_match (some qc) (codes "ab") [] []
resolve_order_example =
    resolve_order path_match (codes "ab") pc qc [] [] pc-Distinct qc-Distinct pc_qc-SameMap
      pc-NoTies
