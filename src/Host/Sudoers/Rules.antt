-- ===== src/Host/Sudoers/Rules.antt =====
-- Which rules are accepted, and what the file with an accepted rule looks like.
use ziti_ssh.Prelude.{◌≡◌, ◌↔◌, refl, false, List, [], ◌∷◌, ◌++◌, ok, arith, All, All-append}
use ziti_ssh.Text.{Text, codes, contains_any, has_prefix, Lacks}
use ziti_ssh.Text.Trim.{trim_space}
use ziti_ssh.Host.Sudoers.{keywords, check_keywords, validate_sudoers_rule, sudoers_content}

-- What the comment above ValidateSudoersRule rules out.
pub record IsSafeRule (rule : Text) : Type 0 where
  pub one_line : Lacks b'\n' rule × Lacks b'\r' rule
  pub no_comment : has_prefix (trim_space rule) (codes "#") ≡ false
  pub no_directive : All (λ kw. has_prefix (trim_space rule) kw ≡ false) keywords

contains_newline_iff :
    (s : Text) → (contains_any s (codes "\n\r") ≡ false) ↔ (Lacks b'\n' s × Lacks b'\r' s)
contains_newline_iff [] = ((λ h. (tt, tt)), (λ h. refl))
contains_newline_iff (c ∷ s) = ground (arith, contains_newline_iff s)

check_keywords_iff :
    (t : Text) (kws : List Text)
    → (check_keywords t kws ≡ ok tt) ↔ All (λ kw. has_prefix t kw ≡ false) kws
unfolding check_keywords
check_keywords_iff t [] = ((λ h. tt), (λ h. refl))
check_keywords_iff t (kw ∷ kws) = ground (arith, check_keywords_iff t kws)

-- A rule is accepted exactly if it is safe.
pub validate_sudoers_rule_iff :
    (rule : Text) → (validate_sudoers_rule rule ≡ ok tt) ↔ IsSafeRule rule
unfolding validate_sudoers_rule
validate_sudoers_rule_iff rule = (
  (λ h. record {
    one_line = (contains_newline_iff rule).0 (ground arith);
    no_comment = ground arith;
    no_directive = (check_keywords_iff (trim_space rule) keywords).0 (ground arith);
  }),
  (λ safe.
      let a = (contains_newline_iff rule).1 safe.one_line in
      let b = (check_keywords_iff (trim_space rule) keywords).1 safe.no_directive in
      ground (arith, a, b, safe.no_comment)),
)

-- A file with an accepted rule, for a user whose name has no line end, is one line: its only line
-- end is the last rune.
pub sudoers_content_one_line :
    (username rule : Text)
    → Lacks b'\n' username
    → validate_sudoers_rule rule ≡ ok tt
    → (line : Text) × (sudoers_content username rule ≡ line ++ b'\n' ∷ []) × Lacks b'\n' line
unfolding sudoers_content
sudoers_content_one_line username rule h valid = (
  username ++ codes " " ++ rule,
  refl,
  All-append _ (username ++ codes " ") rule (All-append _ username (codes " ") h (ground arith, tt))
      ((validate_sudoers_rule_iff rule).0 valid).one_line.0,
)
