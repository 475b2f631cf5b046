-- ===== src/Text/Defs.antt =====
-- Strings, their equality, and the searches and tests of package strings.
use Prim.Native.Char.{code}
use Prim.Native.String.{String}
use mathlib.Core.Option
use ziti_ssh.Prelude.{
  ℕ, zero, suc, ◌≡◌, refl, Bool, true, false, ◌&&◌, List, [], ◌∷◌, ◌++◌, Option, none, some, arith,
  ◌==◌, if◌then◌else◌, ℕ_discrete, any, All, take, drop, length, ◌≢◌,
}

abbrev pub Text : Type 0
Text = List ℕ

-- The code points of a literal. `String` has its own `[]` and `∷`.
abbrev pub codes : String → Text
codes String.[] = []
codes (String.◌∷◌ c s) = code c ∷ codes s

unfoldable pub text_dec : Discrete Text
unfolding ℕ_discrete
text_dec = hlevel ℕ_discrete

-- `a == b`. It computes to the decision, which hands a split its proof.
abbrev pub text_eq : Text → Text → Bool
text_eq a b = elim (text_dec a b) [ yes _ ↦ true | no _ ↦ false ]

-- `s == ""`
abbrev pub is_empty : Text → Bool
is_empty [] = true
is_empty (_ ∷ _) = false

-- strings.HasPrefix
unfoldable pub has_prefix : Text → Text → Bool
has_prefix s [] = true
has_prefix [] (_ ∷ _) = false
has_prefix (c ∷ s) (d ∷ p) = c == d && has_prefix s p

-- `set` holds the rune
abbrev pub has_rune : Text → ℕ → Bool
has_rune set c = any (◌==◌ c) set

-- strings.ContainsAny
abbrev pub contains_any : Text → Text → Bool
contains_any s set = any (has_rune set) s

-- No rune of the text is `d`.
abbrev pub Lacks : ℕ → Text → Type 0
Lacks d s = All (λ c. c ≢ d) s

-- strings.IndexByte, where -1 is `none`
unfoldable pub index_byte : Text → ℕ → Option ℕ
index_byte [] d = none
index_byte (c ∷ s) d = let rest = index_byte s d in if c == d then some 0 else Option.map suc rest

pub text_eq_refl : (a : Text) → text_eq a a ≡ true
text_eq_refl a = ground arith

pub text_eq_ne : (a b : Text) → a ≢ b → text_eq a b ≡ false
text_eq_ne a b h = ground arith

-- The text before the first `d`, and the text after it.
pub index_byte-split :
    (s : Text) (d i : ℕ)
    → index_byte s d ≡ some i
    → (s ≡ take i s ++ d ∷ drop (suc i) s) × Lacks d (take i s)
unfolding index_byte
index_byte-split [] d i h = cc
index_byte-split (c ∷ s) d zero h = ground (arith)
index_byte-split (c ∷ s) d (suc i) h = ground (arith, index_byte-split s d i)

pub index_byte-none : (s : Text) (d : ℕ) → Lacks d s → index_byte s d ≡ none
unfolding index_byte
index_byte-none [] d h = refl
index_byte-none (c ∷ s) d h = ground (arith, index_byte-none s d)

-- The first `d` of a text is the one that a prefix without `d` leaves.
pub index_byte-append :
    (p s : Text) (d : ℕ) → Lacks d p → index_byte (p ++ d ∷ s) d ≡ some (length p)
unfolding index_byte
index_byte-append [] s d h = ground arith
index_byte-append (c ∷ p) s d h = ground (arith, index_byte-append p s d)
