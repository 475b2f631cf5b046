-- ===== src/Cli/Enroll/Paths.antt =====
-- Where an identity goes by default.
use ziti_ssh.Prelude.{
  ℕ, ◌-◌, ◌≡◌, ◌≢◌, refl, ap, sym, ◌∙◌, true, false, [], ◌∷◌, ◌++◌, take, drop, length, arith,
  All-append, append_assoc, length-append,
}
use ziti_ssh.Text.{Text, codes, is_empty, has_rune, text_eq_refl, Lacks}
use ziti_ssh.Cli.Keys.{join_path, trim_suffix, has_suffix}
use ziti_ssh.Cli.Commands.{Environment, config_base}
use ziti_ssh.Cli.Enroll.{last_part, trim_slashes, base, ext, default_enroll_out}

has_rune-Lacks : (d : ℕ) (s : Text) → Lacks d s → has_rune s d ≡ false
has_rune-Lacks d [] h = refl
has_rune-Lacks d (c ∷ s) h = ground (arith, h, has_rune-Lacks d s h.1)

has_rune_there : (d : ℕ) (p s : Text) → has_rune (p ++ d ∷ s) d ≡ true
has_rune_there d [] s = ground arith
has_rune_there d (c ∷ p) s = ground (arith, has_rune_there d p s)

some_there : (p : Text) (c : ℕ) (q : Text) → is_empty (p ++ c ∷ q) ≡ false
some_there [] c q = refl
some_there (d ∷ p) c q = refl

-- The extension is what follows the last dot, the dot included.
ext_none : (s : Text) → Lacks b'.' s → ext s ≡ []
unfolding ext
ext_none [] h = refl
ext_none (c ∷ s) h = ground (arith, h, ext_none s h.1)

ext_dot : (p e : Text) → Lacks b'.' e → Lacks b'/' e → ext (p ++ b'.' ∷ e) ≡ b'.' ∷ e
unfolding ext
ext_dot [] e h k = ground (arith, ext_none e h, has_rune-Lacks b'/' e k)
ext_dot (c ∷ p) e h k = ground (arith, ext_dot p e h k)

trim_slashes_plain : (s : Text) → Lacks b'/' s → trim_slashes s ≡ s
unfolding trim_slashes
trim_slashes_plain [] h = refl
trim_slashes_plain (c ∷ s) h = ground (arith, h, trim_slashes_plain s h.1)

trim_slashes-append :
    (p : Text) (c : ℕ) (q : Text)
    → trim_slashes (c ∷ q) ≡ c ∷ q
    → trim_slashes (p ++ c ∷ q) ≡ p ++ c ∷ q
unfolding trim_slashes
trim_slashes-append [] c q h = h
trim_slashes-append (d ∷ p) c q h = ground (
  arith,
  trim_slashes-append p c q h,
  ap is_empty (trim_slashes-append p c q h),
  some_there p c q,
)

last_part_plain : (s : Text) → Lacks b'/' s → last_part s ≡ s
unfolding last_part
last_part_plain [] h = refl
last_part_plain (c ∷ s) h = ground (arith, h, has_rune-Lacks b'/' s h.1)

last_part_after : (p s : Text) → Lacks b'/' s → last_part (p ++ b'/' ∷ s) ≡ s
unfolding last_part
last_part_after [] s h = ground (arith, has_rune-Lacks b'/' s h)
last_part_after (c ∷ p) s h = ground (arith, has_rune_there b'/' p s, last_part_after p s h)

length_less : (p s : Text) → length (p ++ s) - length s ≡ length p
length_less p s = omega (arith, length-append {0} p s)

drop-append : (p s : Text) → drop (length p) (p ++ s) ≡ s
drop-append [] s = refl
drop-append (c ∷ p) s = drop-append p s

take-append : (p s : Text) → take (length p) (p ++ s) ≡ p
take-append [] s = refl
take-append (c ∷ p) s = ap (◌∷◌ c) (take-append p s)

trim_suffix-append : (p s : Text) → trim_suffix (p ++ s) s ≡ p
unfolding trim_suffix has_suffix
trim_suffix-append p s = rw (length_less p s, drop-append p s, text_eq_refl s) (take-append p s)

base_some :
    (p : Text) (c : ℕ) (q : Text)
    → trim_slashes (c ∷ q) ≡ c ∷ q
    → base (p ++ c ∷ q) ≡ last_part (p ++ c ∷ q)
unfolding base
base_some [] c q h = ground (arith, h)
base_some (d ∷ p) c q h = ground (arith, trim_slashes-append (d ∷ p) c q h)

-- The identity of a token file dir/name.ext goes by default to name.json in the program's
-- configuration directory, if neither the name nor the extension has a slash, and the extension no dot.
pub default_enroll_out_lem :
    (x : Environment) (dir name e : Text)
    → Lacks b'/' name
    → Lacks b'/' e
    → Lacks b'.' e
    → default_enroll_out x (dir ++ b'/' ∷ (name ++ b'.' ∷ e))
      ≡ join_path (join_path (config_base x) (codes "ziti-ssh")) (name ++ codes ".json")
unfolding default_enroll_out
default_enroll_out_lem x dir name e h k q =
    let file = name ++ b'.' ∷ e in
    let whole = dir ++ b'/' ∷ file in
    let dotted : Lacks b'/' (b'.' ∷ e) = (omega arith, k) in
    let lacks : Lacks b'/' file = All-append (λ c. c ≢ b'/') name (b'.' ∷ e) h dotted in
    let ending : ext whole ≡ b'.' ∷ e =
      ap ext (sym (append_assoc dir (b'/' ∷ name) (b'.' ∷ e)))
      ∙ ext_dot (dir ++ b'/' ∷ name) e q k in
    let again : (dir ++ b'/' ∷ name) ++ b'.' ∷ e ≡ whole =
      append_assoc dir (b'/' ∷ name) (b'.' ∷ e) in
    let named : base whole ≡ file =
      ap base (sym again)
      ∙ base_some (dir ++ b'/' ∷ name) b'.' e (trim_slashes_plain (b'.' ∷ e) dotted)
      ∙ ap last_part again
      ∙ last_part_after dir file lacks in
    rw (named, ending, trim_suffix-append name (b'.' ∷ e)) refl
