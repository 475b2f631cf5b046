-- ===== src/Host/Permissions.antt =====
-- PermissionsConfig of host/host.go: which permissions an identity has on a service.
-- `path_match` is path.Match, whose `none` is the error for a malformed pattern.
pub mod Specific
pub mod Order
pub mod Entries
use ziti_ssh.Prelude.{
  ℕ, zero, suc, ◌+◌, ◌-◌, ◌≤◌, ◌≡◌, refl, Bool, true, false, not, ◌&&◌, ◌||◌, List, [], ◌∷◌, ◌++◌,
  ◌==◌, leb, ltb, if◌then◌else◌, Option, none, some,
}
use ziti_ssh.Text.{Text, codes, contains_any}
use ziti_ssh.Dict.{Dict, lookup}

pub record IdentityPermissions : Type 0 where
  pub groups : List Text
  pub sudoers_rule : Text

pub record PermissionsConfig : Type 0 where
  pub permissions : Dict IdentityPermissions

abbrev is_wildcard : ℕ → Bool
is_wildcard ch = ch == b'*' || ch == b'?'

-- the loop of patternSpecificity, with its three variables
specificity_from : Bool → ℕ → ℕ → Text → ℕ × ℕ
specificity_from seen prefix_len total [] = (prefix_len, total)
specificity_from seen prefix_len total (ch ∷ pattern) =
    specificity_from (is_wildcard ch || seen)
      (if is_wildcard ch || seen then prefix_len else prefix_len + 1)
      (if is_wildcard ch then total else total + 1) pattern

-- patternSpecificity: (prefixLen, totalLiterals)
unfoldable pub pattern_specificity : Text → ℕ × ℕ
unfolding specificity_from
pattern_specificity pattern = specificity_from false 0 0 pattern

-- bestPrefixLen, bestTotalLiterals and bestEntry; bestPrefixLen is -1 where there is none
pub record Best : Type 0 where
  pub prefix_len : ℕ
  pub total_literals : ℕ
  pub entry : IdentityPermissions

-- strings.ContainsAny(pattern, "*?")
unfoldable pub is_glob : Text → Bool
is_glob pattern = contains_any pattern (codes "*?")

-- the test on a pattern that matches
unfoldable is_better : ℕ → ℕ → Option Best → Bool
is_better pl tl none = true
is_better pl tl (some b) = ltb b.prefix_len pl || pl == b.prefix_len && ltb b.total_literals tl

module _ (path_match : Text → Text → Option Bool) where
  -- one round of the loop over the map
  pub consider : Text → Option Best → Text × IdentityPermissions → Option Best
  unfolding is_better
  consider id best (pattern, entry) =
      if not (is_glob pattern) then best else elim (path_match pattern id) [
        | none ↦ best
        | some matched ↦
            let (pl, tl) = pattern_specificity pattern in
            if matched && is_better pl tl best
            then some (record { prefix_len = pl; total_literals = tl; entry = entry })
            else best
      ]

  pub best_from : Text → Option Best → Dict IdentityPermissions → Option Best
  best_from id best [] = best
  best_from id best (e ∷ m) = best_from id (consider id best e) m

  -- PermissionsConfig.Resolve; the receiver may be nil
  unfoldable pub resolve : Option PermissionsConfig → Text → List Text → Text → IdentityPermissions
  unfolding best_from consider
  resolve none id global_groups global_rule = record {
    groups = global_groups;
    sudoers_rule = global_rule;
  }
  resolve (some pc) id global_groups global_rule = elim (lookup id pc.permissions) [
    | some entry ↦ entry
    | none ↦ elim (best_from id none pc.permissions) [
      | some best ↦ best.entry
      | none ↦ record { groups = global_groups; sudoers_rule = global_rule }
    ]
  ]
