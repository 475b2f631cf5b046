-- ===== src/Trust/Keys.antt =====
-- sshPubKeySetsEqual, nonEmptyLines and sortStrings of cmd/ziti-ssh-host/main.go.
pub mod Sorting
pub mod Sets
use ziti_ssh.Prelude.{
  ℕ, zero, suc, ◌+◌, ◌-◌, ◌*◌, ◌≤◌, ◌<◌, ◌≡◌, ◌≢◌, ◌↔◌, ◌⊎◌, inl, inr, refl, sym, ap, ◌∙◌, Bool,
  true, false, not, ◌&&◌, ◌||◌, List, [], ◌∷◌, ◌++◌, ◌==◌, leb, ltb, if◌then◌else◌, Option, none,
  some, Result, ok, err, arith, All, length, append_assoc, take, drop, any, map, All-append,
}
use ziti_ssh.Text.{Text, text_eq, is_empty}
use ziti_ssh.Text.Split.{split}
use ziti_ssh.Text.Trim.{trim_space}

-- Go's < on strings
unfoldable pub text_lt : Text → Text → Bool
text_lt [] [] = false
text_lt [] (d ∷ t) = true
text_lt (c ∷ s) [] = false
text_lt (c ∷ s) (d ∷ t) = if ltb c d then true else if ltb d c then false else text_lt s t

-- The inner loop: x moves down past the greater ones. The sorted part stands with its end first.
unfoldable pub sink : Text → List Text → List Text
sink x [] = x ∷ []
sink x (y ∷ ys) = let rest = sink x ys in if text_lt x y then y ∷ rest else x ∷ y ∷ ys

-- the outer loop
unfoldable pub sort_onto : List Text → List Text → List Text
sort_onto done [] = done
sort_onto done (x ∷ xs) = sort_onto (sink x done) xs

unfoldable pub reverse_onto : List Text → List Text → List Text
reverse_onto done [] = done
reverse_onto done (x ∷ xs) = reverse_onto (x ∷ done) xs

unfoldable pub sort_strings : List Text → List Text
sort_strings ss = reverse_onto [] (sort_onto [] ss)

-- the loop of nonEmptyLines
unfoldable pub trimmed_lines : List Text → List Text
trimmed_lines [] = []
trimmed_lines (l ∷ ls) =
    let rest = trimmed_lines ls in if is_empty (trim_space l) then rest else trim_space l ∷ rest

unfoldable pub non_empty_lines : Text → List Text
non_empty_lines s = trimmed_lines (split b'\n' s)

-- the loop that compares; the lists are of one length there
unfoldable pub same_lines : List Text → List Text → Bool
same_lines [] ys = true
same_lines (x ∷ xs) [] = false
same_lines (x ∷ xs) (y ∷ ys) = let rest = same_lines xs ys in if text_eq x y then rest else false

unfoldable pub ssh_pub_key_sets_equal : Text → Text → Bool
ssh_pub_key_sets_equal a b =
    let a_lines = non_empty_lines a in
    let b_lines = non_empty_lines b in
    if length a_lines == length b_lines
    then same_lines (sort_strings a_lines) (sort_strings b_lines)
    else false
